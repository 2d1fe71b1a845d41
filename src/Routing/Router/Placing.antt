-- ===== src/Routing/Router/Placing.antt =====
-- core/execution/router/smart_order_router.cpp: the child orders of a routing. The count and the flag of a new
-- decision are an argument.
use trading_infrastructure_c.Common.{
  ℕ, zero, suc, ◌+◌, Bool, true, false, not, ◌&&◌, ◌||◌, Option, none, some, List, ltb, length,
  replicate, get_or, set, if◌then◌else◌,
}
use trading_infrastructure_c.Common.Float.{Float}
use trading_infrastructure_c.Orders.ParentPlan.{Side}
use trading_infrastructure_c.Portfolio.IntentEngine.{AlphaSignal}
use trading_infrastructure_c.Routing.Router.{
  TimeInForce, max_venues, VenueQuote, RoutingRegime, SmartOrderRouterConfig, ChildOrder,
  RoutingDecision, RoutingConstraints, no_venue, missing_best_price, quote_price_for_side,
  infer_regime,
}
use trading_infrastructure_c.Routing.Router.Search.{find_best_price, find_best_venue_index}

module _ (F : Float) where
  open F use {double, literal}
  open F.double use {Carrier, zero as nought, le, lt, add, sub, mul, div, abs, neg}

  -- The locals of the loop.
  pub record Routing : Type 0 where
    pub out : RoutingDecision F
    pub remaining : Carrier
    pub used : List Bool

  abbrev pub clip : Carrier → VenueQuote F → Carrier
  clip remaining v = if lt remaining v.depth_qty then remaining else v.depth_qty

  abbrev pub ioc_child : Side → Carrier → VenueQuote F → ChildOrder F
  ioc_child side remaining v = record {
    exchange = v.exchange;
    quantity = clip remaining v;
    limit_price = quote_price_for_side F v side;
    tif = TimeInForce.ioc;
  }

  unfoldable pub append_child_order : Side → VenueQuote F → ℕ → Routing → Routing
  append_child_order side winner idx r = record {
    out = record r.out {
      children = set r.out.children r.out.child_count (ioc_child side r.remaining winner);
      child_count = r.out.child_count + 1;
    };
    remaining = sub r.remaining (clip r.remaining winner);
    used = set r.used idx true;
  }

  -- The loop on fuel: each round but the last uses up a venue.
  unfoldable pub route_loop :
      (List Bool → Option ℕ) → Side → List (VenueQuote F) → ℕ → Routing → Routing
  unfolding append_child_order
  route_loop find side venues zero r = r
  route_loop find side venues (suc fuel) r =
      if lt (literal 1 12) r.remaining && ltb r.out.child_count (length r.out.children)
      then elim (find r.used) [
        | none ↦ r
        | some i ↦
            route_loop find side venues fuel
              (append_child_order side (get_or venues i (no_venue F)) i r)
      ]
      else r

  unfoldable pub route :
      RoutingRegime F
      → RoutingDecision F
      → Side
      → Carrier
      → List (VenueQuote F)
      → SmartOrderRouterConfig F
      → RoutingDecision F
  unfolding infer_regime find_best_price find_best_venue_index route_loop
  route memory fresh side quantity venues cfg =
      let regime = infer_regime F memory venues cfg in
      let best = find_best_price F side venues in
      if le (missing_best_price F) best
      then fresh
      else (route_loop
          (λ used. find_best_venue_index F venues used side regime best cfg.min_fill_probability)
          side venues (suc max_venues)
          (record { out = fresh; remaining = quantity; used = replicate max_venues false })).out

  abbrev pub direction_allowed : Side → AlphaSignal F → RoutingConstraints F → Bool
  direction_allowed Side.bid a cfg = le cfg.alpha_min_signal_bps a.signal_bps
  direction_allowed Side.ask a cfg = le a.signal_bps (neg cfg.alpha_min_signal_bps)

  -- `inner` is the decision that the call of `route` starts from.
  unfoldable pub route_with_alpha :
      RoutingRegime F
      → RoutingDecision F
      → RoutingDecision F
      → Side
      → Carrier
      → AlphaSignal F
      → List (VenueQuote F)
      → RoutingConstraints F
      → SmartOrderRouterConfig F
      → RoutingDecision F
  unfolding route
  route_with_alpha memory fresh inner side base a venues cfg sor =
      if le cfg.alpha_risk_max a.risk_score || not (direction_allowed side a cfg)
      then record fresh { blocked_by_alpha = true }
      else route memory inner side
          (mul base (add (literal 1 0) (mul cfg.alpha_qty_scale (abs a.signal_bps)))) venues sor

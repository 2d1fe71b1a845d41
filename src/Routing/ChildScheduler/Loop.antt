-- ===== src/Routing/ChildScheduler/Loop.antt =====
-- core/execution/common/orders/child_order_scheduler.hpp: `schedule` and its loop.
use trading_infrastructure_c.Common.{
  ℕ, zero, suc, ◌+◌, Bool, true, false, not, ◌&&◌, ◌||◌, none, some, List, ltb, ◌==◌, length,
  replicate, get_or, set, if◌then◌else◌,
}
use trading_infrastructure_c.Common.Int.{ℤ}
use trading_infrastructure_c.Common.Float.{Float, min_of}
use trading_infrastructure_c.Orders.ParentPlan.{Side}
use trading_infrastructure_c.Routing.Router.{
  VenueQuote, RoutingRegime, ChildOrder, RoutingDecision, no_children, no_venue, max_venues,
  infer_regime,
}
use trading_infrastructure_c.Routing.Router.Search.{best_index}
use trading_infrastructure_c.Routing.ChildScheduler.{
  ChildExecutionStyle, is_sweep, max_venue_count, tif_for_style, Plan, Config, SchedulerDecision,
  qty_epsilon, choose_style, best_reference_price, venue_expected_shortfall, limit_price_for_style,
}

module _ (F : Float) where
  open F use {double, literal, of_ℕ}
  open F.double use {Carrier, zero as nought, le, lt, add, sub, mul, div}

  -- The locals of the loop. `total` is the weighted shortfall.
  pub record Scheduling : Type 0 where
    pub routing : RoutingDecision F
    pub remaining : Carrier
    pub total : Carrier
    pub used : List Bool

  abbrev pub clip : Carrier → VenueQuote F → Carrier
  clip remaining v = min_of F remaining v.depth_qty

  unfoldable pub child_for :
      Config F → Side → ChildExecutionStyle → Carrier → VenueQuote F → ChildOrder F
  unfolding limit_price_for_style
  child_for cfg side style remaining v = record {
    exchange = v.exchange;
    quantity = clip remaining v;
    limit_price = limit_price_for_style F cfg v side style;
    tif = tif_for_style style;
  }

  -- The rest of a round for the venue found. `continue` and `break` follow in `schedule_loop`.
  unfoldable pub place_child :
      (VenueQuote F → Carrier) → ChildOrder F → VenueQuote F → ℕ → Scheduling → Scheduling
  place_child shortfall child v i r =
      let taken = clip r.remaining v in
      record {
        routing = record r.routing {
          children = set r.routing.children r.routing.child_count child;
          child_count = r.routing.child_count + 1;
        };
        remaining = sub r.remaining taken;
        total = add r.total (mul taken (shortfall v));
        used = set r.used i true;
      }

  abbrev pub skip : ℕ → Scheduling → Scheduling
  skip i r = record r { used = set r.used i true }

  abbrev pub goes_on : ChildExecutionStyle → Scheduling → Bool
  goes_on style r =
      lt (qty_epsilon F) r.remaining
      && ltb r.routing.child_count (length r.routing.children)
      && ltb r.routing.child_count (max_venue_count style)

  -- The loop on fuel: each round but the last uses up a venue.
  unfoldable pub schedule_loop :
      Config F
      → Side
      → ChildExecutionStyle
      → List (VenueQuote F)
      → (VenueQuote F → Carrier)
      → ℕ
      → Scheduling
      → Scheduling
  unfolding best_index place_child child_for
  schedule_loop cfg side style venues shortfall zero r = r
  schedule_loop cfg side style venues shortfall (suc fuel) r =
      if goes_on style r
      then elim (best_index F shortfall r.used venues) [
        | none ↦ r
        | some i ↦
            let v = get_or venues i (no_venue F) in
            let child = child_for cfg side style r.remaining v in
            let skipped = le (clip r.remaining v) (qty_epsilon F) in
            let next = if skipped then skip i r else place_child shortfall child v i r in
            let rest = schedule_loop cfg side style venues shortfall fuel next in
            if skipped || is_sweep style then rest else next
      ]
      else r

  -- `routing{}` sets the count to 0 and the flag to false.
  abbrev pub no_routing : RoutingDecision F
  no_routing = record { children = no_children F; child_count = 0; blocked_by_alpha = false }

  unfoldable pub finish : Plan F → SchedulerDecision F → Scheduling → SchedulerDecision F
  finish plan out r =
      let routed = sub plan.remaining_qty r.remaining in
      if r.routing.child_count == 0 || not (lt (qty_epsilon F) routed)
      then record out { routing = r.routing }
      else record out { routing = r.routing; expected_shortfall_bps = div r.total routed }

  unfoldable pub schedule :
      RoutingRegime F
      → ChildExecutionStyle
      → Carrier
      → Config F
      → Plan F
      → ℤ
      → ℤ
      → List (VenueQuote F)
      → SchedulerDecision F
  unfolding choose_style best_reference_price infer_regime venue_expected_shortfall schedule_loop
      finish
  schedule memory style_memory shortfall_memory cfg plan horizon age_ms venues =
      let style = choose_style F cfg plan horizon in
      let best = best_reference_price F plan.side style venues in
      let regime = infer_regime F memory venues cfg.sor in
      let blank : SchedulerDecision F = record {
        routing = no_routing;
        style = style_memory;
        expected_shortfall_bps = shortfall_memory;
      } in
      let started : SchedulerDecision F = record blank { style = style } in
      if not plan.active || le plan.remaining_qty nought
      then blank
      else if le best nought
      then started
      else finish plan started (
          schedule_loop cfg plan.side style venues
            (λ v. venue_expected_shortfall F cfg v plan.side style regime best age_ms)
            (suc max_venues)
            (record {
              routing = no_routing;
              remaining = plan.remaining_qty;
              total = nought;
              used = replicate max_venues false;
            }))

-- ===== src/Routing/ChildScheduler/Sound.antt =====
-- `schedule` as a whole, and the limit price of a passive child.
use mathlib.Core.Path.{subst}
use trading_infrastructure_c.Common.{
  ℕ, ◌≤◌, ◌≡◌, refl, sym, inl, inr, ◌⊎◌, true, false, not, ◌||◌, none, List, [], length, take,
  replicate, ◌==◌, arith, pick, neither,
}
use trading_infrastructure_c.Common.Int.{ℤ}
use trading_infrastructure_c.Common.Float.{Float}
use trading_infrastructure_c.Orders.ParentPlan.{Side}
use trading_infrastructure_c.Routing.Router.{
  VenueQuote, RoutingRegime, RoutingDecision, max_venues, infer_regime,
}
use trading_infrastructure_c.Routing.Router.Search.{best_index}
use trading_infrastructure_c.Routing.Router.Split.{Fresh-length, marked, Taken, Taken-Fresh}
use trading_infrastructure_c.Routing.ChildScheduler.{
  ChildExecutionStyle, max_venue_count, Config, Plan, SchedulerDecision, qty_epsilon, choose_style,
  best_reference_price, venue_expected_shortfall, limit_price_for_style, improved_price,
}
use trading_infrastructure_c.Routing.ChildScheduler.Loop.{
  Scheduling, schedule_loop, finish, schedule, no_routing,
}
use trading_infrastructure_c.Routing.ChildScheduler.Schedule.{
  placed, left, Scheduled, schedule_loop-Scheduled,
}

module _ (F : Float) where
  open F.double use {Carrier, zero as nought, lt, le}

  finish-routing :
      (plan : Plan F) (out : SchedulerDecision F) (r : Scheduling F)
      → (finish F plan out r).routing ≡ r.routing
  unfolding finish
  finish-routing plan out r =
      pick (λ (o : SchedulerDecision F). o.routing ≡ r.routing)
        (r.routing.child_count == 0
          || not (lt (qty_epsilon F) (F.double.sub plan.remaining_qty r.remaining)))
        _ _ (λ _. refl) (λ _. refl)

  module _ (memory : RoutingRegime F) (style_memory : ChildExecutionStyle)
      (shortfall_memory : Carrier) (cfg : Config F) (plan : Plan F) (horizon age_ms : ℤ)
      (venues : List (VenueQuote F)) where
    abbrev style : ChildExecutionStyle
    style = choose_style F cfg plan horizon

    abbrev best : Carrier
    best = best_reference_price F plan.side style venues

    abbrev shortfall : VenueQuote F → Carrier
    shortfall v =
        venue_expected_shortfall F cfg v plan.side style (infer_regime F memory venues cfg.sor) best
          age_ms

    -- The decision `out` looks at the venues `is`, in this order.
    pub record IsSchedule (out : RoutingDecision F) (is : List ℕ) : Type 0 where
      pub taken : Taken F venues (replicate max_venues false) is
      pub at_most : length is ≤ max_venues
      pub children :
          take out.child_count out.children
          ≡ placed F cfg plan.side style venues plan.remaining_qty is
      pub count :
          out.child_count ≡ length (placed F cfg plan.side style venues plan.remaining_qty is)
      pub limit : out.child_count ≤ max_venue_count style
      pub ends :
          (not plan.active || le plan.remaining_qty nought ≡ true)
          ⊎ (le best nought ≡ true)
          ⊎ (lt (qty_epsilon F) (left F cfg plan.side style venues plan.remaining_qty is) ≡ false)
          ⊎ (max_venue_count style ≤ out.child_count)
          ⊎ (best_index F shortfall (marked (replicate max_venues false) is) venues ≡ none)

    nothing :
        (not plan.active || le plan.remaining_qty nought ≡ true) ⊎ (le best nought ≡ true)
        → IsSchedule (no_routing F) []
    nothing why = record {
      taken = tt;
      at_most = omega arith;
      children = refl;
      count = refl;
      limit = omega arith;
      ends = elim why [ inl e ↦ inl e | inr e ↦ inr (inl e) ];
    }

    start : Scheduling F
    start = record {
      routing = no_routing F;
      remaining = plan.remaining_qty;
      total = nought;
      used = replicate max_venues false;
    }

    abbrev started : SchedulerDecision F
    started = record {
      routing = no_routing F;
      style = style;
      expected_shortfall_bps = shortfall_memory;
    }

    scheduled :
        (s : Scheduling F) (is : List ℕ)
        → Scheduled F cfg plan.side style venues shortfall start s is
        → IsSchedule s.routing is
    unfolding start
    scheduled s is t = record {
      taken = t.taken;
      at_most = Fresh-length (replicate max_venues false) is (Taken-Fresh F venues _ is t.taken);
      children = t.children;
      count = omega (arith, t.count);
      limit = t.limit (omega arith);
      ends = elim t.ends [
        | inl a ↦ inr (inr (inl (subst (λ x. lt (qty_epsilon F) x ≡ false) t.remaining a)))
        | inr (inl b) ↦ inr (inr (inr (inl b)))
        | inr (inr n) ↦
            inr (inr (inr (inr (subst (λ u. best_index F shortfall u venues ≡ none) t.used n))))
      ];
    }

    -- `schedule` looks at no more than four venues, none twice, each healthy and with depth. There is
    -- a child for each of them that takes more than 1e-9, of the venue's depth or of what those before
    -- it left, whichever is less, with the price and time in force of the style; at most four in a
    -- sweep, and at most one in any other style. It stops only where the plan is not active or has nothing
    -- left, no venue has a price, at most 1e-9 is left, the style's limit is met or no venue is found.
    pub schedule-IsSchedule :
        (is : List ℕ) × IsSchedule
          (schedule F memory style_memory shortfall_memory cfg plan horizon age_ms venues).routing
          is
    unfolding schedule start
    schedule-IsSchedule =
        pick Good (not plan.active || le plan.remaining_qty nought) _ _ (λ e. ([], nothing (inl e)))
          (λ _.
            pick Good (le best nought) _ _ (λ e. ([], nothing (inr e)))
              (λ _.
                let (is, t) =
                  schedule_loop-Scheduled F cfg plan.side style venues shortfall 5 start refl
                    (omega arith) in
                (
                  is,
                  subst (λ r. IsSchedule r is)
                      (sym (
                        finish-routing plan started
                          (schedule_loop F cfg plan.side style venues shortfall 5 start)))
                      (scheduled _ is t),
                )))
      where
        Good : SchedulerDecision F → Type 0
        Good out = (is : List ℕ) × IsSchedule out.routing is

  -- Let the plan sell, and let no venue's best bid be above its best ask. Then a child that is to improve
  -- on the best ask is put at the best ask itself, as a child that joins it is.
  pub ask_never_improves :
      (cfg : Config F) (v : VenueQuote F)
      → le v.best_bid v.best_ask ≡ true
      → limit_price_for_style F cfg v Side.ask ChildExecutionStyle.passive_improve
        ≡ limit_price_for_style F cfg v Side.ask ChildExecutionStyle.passive_join
  unfolding limit_price_for_style improved_price
  ask_never_improves cfg v h =
      pick (λ p. p ≡ v.best_ask)
        ((le v.best_ask nought || le v.best_bid nought) || le v.best_bid v.best_ask) _ _ (λ _. refl)
        (λ e. let (a, b) = neither (le v.best_ask nought || _) _ e in cc)

-- ===== src/Routing/Examples.antt =====
-- The theorems on the router and the scheduler at concrete venues, over whole numbers for `double`.
use trading_infrastructure_c.Common.{ℕ, ◌≡◌, refl, true, false, List, [], ◌∷◌, replicate, arith}
use trading_infrastructure_c.Common.Int.{ℤ, pos, negsuc, ltb_ℤ, ◌+ℤ◌, ◌-ℤ◌}
use trading_infrastructure_c.Common.Whole.{whole_float}
use trading_infrastructure_c.Connectors.OrderMap.{Exchange}
use trading_infrastructure_c.Orders.ParentPlan.{Side, Urgency}
use trading_infrastructure_c.Routing.VenueQuality
use trading_infrastructure_c.Routing.VenueQuality.{Observation, init, apply}
use trading_infrastructure_c.Routing.VenueQuality.Bounds.{Ranges, IsQuoted, apply-IsQuoted}
use trading_infrastructure_c.Routing.Router.{
  VenueQuote, RoutingRegime, RoutingDecision, SmartOrderRouterConfig, no_venue, no_children,
  expected_shortfall_bps, infer_regime,
}
use trading_infrastructure_c.Routing.Router.Search.{best_index}
use trading_infrastructure_c.Routing.Router.Placing.{route}
use trading_infrastructure_c.Routing.Router.Best.{IsChosen, best_index-IsChosen}
use trading_infrastructure_c.Routing.Router.Route.{IsRouting, route-IsRouting}
use trading_infrastructure_c.Routing.ChildScheduler.{
  ChildExecutionStyle, Config, Plan, limit_price_for_style,
}
use trading_infrastructure_c.Routing.ChildScheduler.Loop.{schedule}
use trading_infrastructure_c.Routing.ChildScheduler.Sound.{
  IsSchedule, schedule-IsSchedule, ask_never_improves,
}

abbrev near : VenueQuote whole_float
near = record (no_venue whole_float) {
  exchange = Exchange.okx;
  best_bid = pos 99;
  best_ask = pos 101;
  depth_qty = pos 4;
  taker_fee_bps = pos 2;
  healthy = true;
}

abbrev far : VenueQuote whole_float
far = record near { exchange = Exchange.kraken; best_ask = pos 103; depth_qty = pos 20 }

abbrev quotes : List (VenueQuote whole_float)
quotes = near ∷ far ∷ no_venue whole_float ∷ no_venue whole_float ∷ []

abbrev sor : SmartOrderRouterConfig whole_float
sor = record {
  high_toxicity_threshold = pos 5;
  low_fill_threshold = pos 1;
  high_fill_threshold = pos 9;
  high_toxicity_fill_weight = pos 3;
  high_toxicity_queue_weight = pos 3;
  high_toxicity_tox_weight = pos 3;
  low_fill_fill_weight = pos 2;
  low_fill_queue_weight = pos 2;
  low_fill_tox_weight = pos 2;
  high_fill_fill_weight = pos 1;
  high_fill_queue_weight = pos 1;
  high_fill_tox_weight = pos 1;
  min_fill_probability = pos 0;
}

abbrev regime : RoutingRegime whole_float
regime = record { fill_weight_bps = pos 0; queue_weight_bps = pos 0; toxicity_weight = pos 0 }

abbrev fresh : RoutingDecision whole_float
fresh = record { children = no_children whole_float; child_count = 0; blocked_by_alpha = false }

lt_irrefl : (a : ℤ) → ltb_ℤ a a ≡ false
lt_irrefl a = ground arith

lt_trans : (a b c : ℤ) → ltb_ℤ a b ≡ true → ltb_ℤ b c ≡ true → ltb_ℤ a c ≡ true
lt_trans a b c p q = ground arith

abbrev ask_of : VenueQuote whole_float → ℤ
ask_of v = v.best_ask

best_index-IsChosen_example :
    IsChosen whole_float ask_of
      (replicate 4 false)
      quotes
      (best_index whole_float ask_of (replicate 4 false) quotes)
best_index-IsChosen_example =
    best_index-IsChosen whole_float ask_of (replicate 4 false) quotes lt_irrefl lt_trans

route-IsRouting_example :
    (is : List ℕ) × IsRouting whole_float Side.bid quotes
      (route whole_float regime fresh Side.bid (pos 10) quotes sor)
      (infer_regime whole_float regime quotes sor)
      (pos 0)
      (pos 10)
      is
route-IsRouting_example =
    route-IsRouting whole_float Side.bid quotes regime fresh (pos 10) sor refl refl

abbrev config : Config whole_float
config = record {
  short_horizon_ticks = pos 5;
  sweep_horizon_ticks = pos 2;
  long_horizon_ticks = pos 20;
  passive_join_inventory_age_bps = pos 1;
  passive_improve_inventory_age_bps = pos 1;
  aggressive_inventory_age_bps = pos 1;
  passive_improve_fraction = pos 1;
  price_cross_epsilon = pos 1;
  sor = sor;
}

abbrev plan : Plan whole_float
plan = record {
  active = true;
  side = Side.bid;
  remaining_qty = pos 10;
  urgency = Urgency.aggressive;
}

schedule-IsSchedule_example :
    (is : List ℕ) × IsSchedule whole_float regime ChildExecutionStyle.ioc
      (pos 7)
      config
      plan
      (pos 1)
      (pos 30)
      quotes
      (schedule whole_float regime ChildExecutionStyle.ioc
        (pos 7)
        config
        plan
        (pos 1)
        (pos 30)
        quotes).routing
      is
schedule-IsSchedule_example =
    schedule-IsSchedule whole_float regime ChildExecutionStyle.ioc (pos 7) config plan (pos 1)
      (pos 30) quotes

-- A sweep takes both venues, the nearer one first.
sweep_takes_both :
    (schedule whole_float regime ChildExecutionStyle.ioc
      (pos 7)
      config
      plan
      (pos 1)
      (pos 30)
      quotes).routing.child_count
    ≡ 2
unfolding schedule ◌+ℤ◌ ◌-ℤ◌ expected_shortfall_bps
sweep_takes_both = refl

ask_never_improves_example :
    limit_price_for_style whole_float config near Side.ask ChildExecutionStyle.passive_improve
    ≡ limit_price_for_style whole_float config near Side.ask ChildExecutionStyle.passive_join
ask_never_improves_example = ask_never_improves whole_float config near refl

abbrev quality : VenueQuality.Config whole_float
quality = record {
  min_fill_probability = pos 1;
  max_fill_probability = pos 9;
  fill_probability_alpha = pos 1;
  markout_alpha = pos 1;
  reject_rate_alpha = pos 1;
  cancel_latency_alpha = pos 1;
  health_alpha = pos 1;
  max_fill_step = pos 2;
  max_markout_step_bps = pos 4;
  max_reject_step = pos 1;
  max_cancel_latency_step_bps = pos 1;
  max_health_step_bps = pos 1;
  reject_rate_penalty_bps = pos 6;
  cancel_latency_penalty_scale_bps = pos 3;
  health_penalty_scale_bps = pos 8;
  passive_markout_penalty_scale = pos 1;
  taker_markout_penalty_scale = pos 1;
  stability_penalty_scale = pos 1;
}

quality-Ranges : Ranges whole_float quality
unfolding ◌-ℤ◌
quality-Ranges = record {
  irrefl = lt_irrefl;
  limits = refl;
  start = (refl, refl);
  tens = (refl, refl);
  ten = refl;
  five = refl;
  unit = refl;
}

abbrev observations : List (Exchange × Observation whole_float)
observations =
    (Exchange.okx, Observation.fill_probability (pos 50))
    ∷ (Exchange.okx, Observation.markout true (negsuc 80))
    ∷ (Exchange.kraken, Observation.reject true)
    ∷ []

apply-IsQuoted_example : IsQuoted whole_float quality quality-Ranges (
    apply whole_float
      (VenueQuality.Bounds.run whole_float quality quality-Ranges observations (init whole_float))
      near)
apply-IsQuoted_example = apply-IsQuoted whole_float quality quality-Ranges observations near refl

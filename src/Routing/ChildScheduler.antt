-- ===== src/Routing/ChildScheduler.antt =====
-- core/execution/common/orders/child_order_scheduler.hpp over an abstract `double`. Of the parent's plan
-- the fields that `schedule` reads are modelled, its quantity a `double` as in the source. `style` and
-- `expected_shortfall_bps` of a new decision are not initialised by the source: what memory held there is
-- an argument.
pub mod Loop
pub mod Schedule
pub mod Sound
use trading_infrastructure_c.Common.{
  ℕ, zero, suc, ◌+◌, Bool, true, false, not, ◌&&◌, ◌||◌, Option, none, some, List, [], ◌∷◌, ltb,
  ◌==◌, length, replicate, get_or, set, if◌then◌else◌,
}
use trading_infrastructure_c.Common.Int.{ℤ, pos, leb_ℤ, pos_part}
use trading_infrastructure_c.Common.Float.{Float, max_of, min_of}
use trading_infrastructure_c.Orders.ParentPlan.{Side, Urgency}
use trading_infrastructure_c.Routing.Router.{
  TimeInForce, VenueQuote, RoutingRegime, SmartOrderRouterConfig, ChildOrder, RoutingDecision,
  no_children, no_venue, is_tradeable, max_venues, infer_regime, expected_shortfall_bps,
}
use trading_infrastructure_c.Routing.Router.Search.{better, best_index}

pub data ChildExecutionStyle : Type 0 where
  passive_join passive_improve ioc sweep : ChildExecutionStyle

abbrev pub is_sweep : ChildExecutionStyle → Bool
is_sweep ChildExecutionStyle.sweep = true
is_sweep _ = false

abbrev pub is_passive : ChildExecutionStyle → Bool
is_passive ChildExecutionStyle.passive_join = true
is_passive ChildExecutionStyle.passive_improve = true
is_passive _ = false

abbrev is_bid : Side → Bool
is_bid Side.bid = true
is_bid Side.ask = false

abbrev pub lower_price_is_better : Side → ChildExecutionStyle → Bool
lower_price_is_better side style = if is_passive style then not (is_bid side) else is_bid side

abbrev pub max_venue_count : ChildExecutionStyle → ℕ
max_venue_count style = if is_sweep style then max_venues else 1

abbrev pub tif_for_style : ChildExecutionStyle → TimeInForce
tif_for_style style = if is_passive style then TimeInForce.gtx else TimeInForce.ioc

module _ (F : Float) where
  open F use {double, literal, of_ℕ}
  open F.double use {Carrier, zero as nought, le, lt, add, sub, mul, div}

  pub record Plan : Type 0 where
    pub active : Bool
    pub side : Side
    pub remaining_qty : Carrier
    pub urgency : Urgency

  pub record Config : Type 0 where
    pub short_horizon_ticks : ℤ
    pub sweep_horizon_ticks : ℤ
    pub long_horizon_ticks : ℤ
    pub passive_join_inventory_age_bps : Carrier
    pub passive_improve_inventory_age_bps : Carrier
    pub aggressive_inventory_age_bps : Carrier
    pub passive_improve_fraction : Carrier
    pub price_cross_epsilon : Carrier
    pub sor : SmartOrderRouterConfig F

  pub record SchedulerDecision : Type 0 where
    pub routing : RoutingDecision F
    pub style : ChildExecutionStyle
    pub expected_shortfall_bps : Carrier

  abbrev pub qty_epsilon : Carrier
  qty_epsilon = literal 1 9

  choose_style_for : Config → ℤ → Urgency → ChildExecutionStyle
  choose_style_for cfg horizon Urgency.aggressive =
      if leb_ℤ horizon cfg.sweep_horizon_ticks
      then ChildExecutionStyle.sweep
      else ChildExecutionStyle.ioc
  choose_style_for cfg horizon Urgency.passive =
      if leb_ℤ cfg.long_horizon_ticks horizon
      then ChildExecutionStyle.passive_join
      else ChildExecutionStyle.passive_improve
  choose_style_for cfg horizon Urgency.balanced =
      if leb_ℤ horizon cfg.sweep_horizon_ticks
      then ChildExecutionStyle.sweep
      else if leb_ℤ horizon cfg.short_horizon_ticks
      then ChildExecutionStyle.ioc
      else ChildExecutionStyle.passive_improve

  unfoldable pub choose_style : Config → Plan → ℤ → ChildExecutionStyle
  unfolding choose_style_for
  choose_style cfg plan horizon = choose_style_for cfg horizon plan.urgency

  abbrev age_rate : Config → ChildExecutionStyle → Carrier
  age_rate cfg ChildExecutionStyle.passive_join = cfg.passive_join_inventory_age_bps
  age_rate cfg ChildExecutionStyle.passive_improve = cfg.passive_improve_inventory_age_bps
  age_rate cfg _ = cfg.aggressive_inventory_age_bps

  -- std::clamp
  abbrev clamp : Carrier → Carrier → Carrier → Carrier
  clamp v lo hi = if lt v lo then lo else (if lt hi v then hi else v)

  unfoldable pub inventory_age_penalty_bps : Config → ChildExecutionStyle → ℤ → Carrier
  inventory_age_penalty_bps cfg style age_ms =
      mul (clamp (div (of_ℕ (pos_part age_ms)) (literal 1_000 0)) nought (literal 10 0))
        (age_rate cfg style)

  abbrev same_side_price : VenueQuote F → Side → Carrier
  same_side_price v side = if is_bid side then v.best_bid else v.best_ask

  abbrev opposite_side_price : VenueQuote F → Side → Carrier
  opposite_side_price v side = if is_bid side then v.best_ask else v.best_bid

  abbrev pub quote_price_for_style : VenueQuote F → Side → ChildExecutionStyle → Carrier
  quote_price_for_style v side style =
      if is_passive style then same_side_price v side else opposite_side_price v side

  unfoldable pub best_reference_from :
      Side → ChildExecutionStyle → List (VenueQuote F) → Bool × Carrier → Bool × Carrier
  best_reference_from side style [] acc = acc
  best_reference_from side style (v ∷ vs) acc =
      let px = quote_price_for_style v side style in
      best_reference_from side style vs (
        if not (is_tradeable F v) || le px nought
        then acc
        else better F (lower_price_is_better side style) px acc)

  unfoldable pub best_reference_price : Side → ChildExecutionStyle → List (VenueQuote F) → Carrier
  unfolding best_reference_from
  best_reference_price side style venues =
      let (found, best) = best_reference_from side style venues (false, nought) in
      if found then best else nought

  abbrev style_shortfall : VenueQuote F → Carrier → ChildExecutionStyle → Carrier
  style_shortfall v score ChildExecutionStyle.passive_join =
      add (sub score (mul (literal 5 1) v.taker_fee_bps)) v.passive_markout_bps
  style_shortfall v score ChildExecutionStyle.passive_improve =
      add
        (add (sub score (mul (literal 25 2) v.taker_fee_bps))
          (mul (literal 10 2) v.queue_ahead_qty))
        v.passive_markout_bps
  style_shortfall v score ChildExecutionStyle.sweep =
      add (sub score (mul (literal 20 2) v.latency_penalty_bps)) v.taker_markout_bps
  style_shortfall v score ChildExecutionStyle.ioc = add score v.taker_markout_bps

  unfoldable pub venue_expected_shortfall :
      Config → VenueQuote F → Side → ChildExecutionStyle → RoutingRegime F → Carrier → ℤ → Carrier
  unfolding inventory_age_penalty_bps
  venue_expected_shortfall cfg v side style regime best age_ms =
      style_shortfall v
        (expected_shortfall_bps F v side regime best (inventory_age_penalty_bps cfg style age_ms)
          cfg.sor.min_fill_probability)
        style

  unfoldable pub improved_price : Config → Side → Carrier → Carrier → Carrier
  improved_price cfg side same opposite =
      if le same nought || le opposite nought || le opposite same
      then same
      else (let spread = sub opposite same in
          let improvement = max_of F nought (
            min_of F (mul spread cfg.passive_improve_fraction)
              (sub spread cfg.price_cross_epsilon)) in
          if is_bid side then add same improvement else sub same improvement)

  unfoldable pub limit_price_for_style :
      Config → VenueQuote F → Side → ChildExecutionStyle → Carrier
  unfolding improved_price
  limit_price_for_style cfg v side ChildExecutionStyle.passive_join = same_side_price v side
  limit_price_for_style cfg v side ChildExecutionStyle.passive_improve =
      improved_price cfg side (same_side_price v side) (opposite_side_price v side)
  limit_price_for_style cfg v side _ = opposite_side_price v side

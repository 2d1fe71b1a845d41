-- ===== src/Routing/Router.antt =====
-- core/execution/router/smart_order_router.{hpp,cpp} over an abstract `double`. A `RoutingDecision` has
-- eight cells; `child_count` and `blocked_by_alpha` of a new one, and the weights of a regime that no
-- branch sets, are not initialised by the source: what memory held there is an argument.
pub mod Search
pub mod Placing
pub mod Best
pub mod Split
pub mod Route
use trading_infrastructure_c.Common.{
  ℕ, zero, suc, ◌+◌, Bool, true, false, not, ◌&&◌, ◌||◌, Option, none, some, List, [], ◌∷◌, ltb,
  length, replicate, get_or, set, if◌then◌else◌,
}
use trading_infrastructure_c.Common.Float.{Float}
use trading_infrastructure_c.Connectors.OrderMap.{Exchange}
use trading_infrastructure_c.Orders.ParentPlan.{Side}
use trading_infrastructure_c.Portfolio.IntentEngine.{AlphaSignal}

pub data TimeInForce : Type 0 where
  gtc ioc fok gtx : TimeInForce

abbrev pub max_venues : ℕ
max_venues = 4

abbrev pub lower_price_is_better : Side → Bool
lower_price_is_better Side.bid = true
lower_price_is_better Side.ask = false

module _ (F : Float) where
  open F use {double, literal}
  open F.double use {Carrier, zero as nought, le, lt, add, sub, mul, div, abs, neg}

  pub record VenueQuote : Type 0 where
    pub exchange : Exchange
    pub best_bid : Carrier
    pub best_ask : Carrier
    pub depth_qty : Carrier
    pub taker_fee_bps : Carrier
    pub latency_penalty_bps : Carrier
    pub risk_penalty_bps : Carrier
    pub fill_probability : Carrier
    pub queue_ahead_qty : Carrier
    pub toxicity_bps : Carrier
    pub healthy : Bool
    pub enabled : Bool
    pub adaptive_fill_probability : Carrier
    pub passive_markout_bps : Carrier
    pub taker_markout_bps : Carrier
    pub reject_rate : Carrier
    pub cancel_latency_penalty_bps : Carrier
    pub health_penalty_bps : Carrier
    pub stability_penalty_bps : Carrier
    pub quality_penalty_bps : Carrier

  pub record RoutingRegime : Type 0 where
    pub fill_weight_bps : Carrier
    pub queue_weight_bps : Carrier
    pub toxicity_weight : Carrier

  pub record SmartOrderRouterConfig : Type 0 where
    pub high_toxicity_threshold : Carrier
    pub low_fill_threshold : Carrier
    pub high_fill_threshold : Carrier
    pub high_toxicity_fill_weight : Carrier
    pub high_toxicity_queue_weight : Carrier
    pub high_toxicity_tox_weight : Carrier
    pub low_fill_fill_weight : Carrier
    pub low_fill_queue_weight : Carrier
    pub low_fill_tox_weight : Carrier
    pub high_fill_fill_weight : Carrier
    pub high_fill_queue_weight : Carrier
    pub high_fill_tox_weight : Carrier
    pub min_fill_probability : Carrier

  pub record ChildOrder : Type 0 where
    pub exchange : Exchange
    pub quantity : Carrier
    pub limit_price : Carrier
    pub tif : TimeInForce

  pub record RoutingDecision : Type 0 where
    pub children : List ChildOrder
    pub child_count : ℕ
    pub blocked_by_alpha : Bool

  pub record RoutingConstraints : Type 0 where
    pub alpha_min_signal_bps : Carrier
    pub alpha_risk_max : Carrier
    pub alpha_qty_scale : Carrier

  abbrev pub no_child : ChildOrder
  no_child = record {
    exchange = Exchange.binance;
    quantity = nought;
    limit_price = nought;
    tif = TimeInForce.gtc;
  }

  -- `std::array<ChildOrder, 8> children{}`
  abbrev pub no_children : List ChildOrder
  no_children = replicate 8 no_child

  -- An index past the end is never read.
  abbrev pub no_venue : VenueQuote
  no_venue = record {
    exchange = Exchange.unknown;
    best_bid = nought;
    best_ask = nought;
    depth_qty = nought;
    taker_fee_bps = nought;
    latency_penalty_bps = nought;
    risk_penalty_bps = nought;
    fill_probability = nought;
    queue_ahead_qty = nought;
    toxicity_bps = nought;
    healthy = false;
    enabled = false;
    adaptive_fill_probability = nought;
    passive_markout_bps = nought;
    taker_markout_bps = nought;
    reject_rate = nought;
    cancel_latency_penalty_bps = nought;
    health_penalty_bps = nought;
    stability_penalty_bps = nought;
    quality_penalty_bps = nought;
  }

  abbrev pub infinite_price : Carrier
  infinite_price = literal 1_000_000_000_000_000_000 0

  abbrev pub missing_best_price : Carrier
  missing_best_price = literal 100_000_000_000_000_000 0

  abbrev pub quote_price_for_side : VenueQuote → Side → Carrier
  quote_price_for_side v Side.bid = v.best_ask
  quote_price_for_side v Side.ask = v.best_bid

  -- The test that every search of the venues makes.
  abbrev pub is_tradeable : VenueQuote → Bool
  is_tradeable v = not (not v.healthy || le v.depth_qty nought)

  unfoldable pub effective_price_bps : VenueQuote → Side → Carrier
  effective_price_bps v side =
      if le (quote_price_for_side v side) nought
      then literal 1_000_000_000_000 0
      else add (add v.taker_fee_bps v.latency_penalty_bps) v.risk_penalty_bps

  abbrev pub fill_probability_of : VenueQuote → Carrier
  fill_probability_of v =
      if le nought v.adaptive_fill_probability
      then v.adaptive_fill_probability
      else v.fill_probability

  -- The count of healthy venues, a double, with the sums of toxicity and of fill probability.
  abbrev healthy_totals :
      List VenueQuote → Carrier × Carrier × Carrier → Carrier × Carrier × Carrier
  healthy_totals [] totals = totals
  healthy_totals (v ∷ vs) (count, toxicity, fill) = healthy_totals vs (
      if v.healthy
      then (add count (literal 1 0), add toxicity v.toxicity_bps, add fill (fill_probability_of v))
      else (count, toxicity, fill))

  regime_of : RoutingRegime → SmartOrderRouterConfig → Carrier × Carrier × Carrier → RoutingRegime
  regime_of memory cfg (count, toxicity, fill) =
      if le count nought
      then memory
      else if le cfg.high_toxicity_threshold (div toxicity count)
      then record {
        fill_weight_bps = cfg.high_toxicity_fill_weight;
        queue_weight_bps = cfg.high_toxicity_queue_weight;
        toxicity_weight = cfg.high_toxicity_tox_weight;
      }
      else if lt (div fill count) cfg.low_fill_threshold
      then record {
        fill_weight_bps = cfg.low_fill_fill_weight;
        queue_weight_bps = cfg.low_fill_queue_weight;
        toxicity_weight = cfg.low_fill_tox_weight;
      }
      else if lt cfg.high_fill_threshold (div fill count)
      then record {
        fill_weight_bps = cfg.high_fill_fill_weight;
        queue_weight_bps = cfg.high_fill_queue_weight;
        toxicity_weight = cfg.high_fill_tox_weight;
      }
      else memory

  unfoldable pub infer_regime :
      RoutingRegime → List VenueQuote → SmartOrderRouterConfig → RoutingRegime
  unfolding regime_of
  infer_regime memory venues cfg =
      regime_of memory cfg (healthy_totals venues (nought, nought, nought))

  unfoldable pub score_venue_bps : VenueQuote → Side → RoutingRegime → Carrier → Carrier
  unfolding effective_price_bps
  score_venue_bps v side regime min_fill =
      let fill = fill_probability_of v in
      let clipped = if lt fill min_fill then min_fill else fill in
      let fill_penalty = mul regime.fill_weight_bps (sub (literal 1 0) clipped) in
      let queue_penalty = mul regime.queue_weight_bps v.queue_ahead_qty in
      let toxicity_penalty = mul regime.toxicity_weight v.toxicity_bps in
      add
        (add
          (add (add (add (effective_price_bps v side) fill_penalty) queue_penalty) toxicity_penalty)
          v.taker_markout_bps)
        v.quality_penalty_bps

  abbrev price_penalty_bps : Bool → Carrier → Carrier → Carrier
  price_penalty_bps lower quote best =
      if lower
      then mul (div (sub quote best) best) (literal 10_000 0)
      else mul (div (sub best quote) best) (literal 10_000 0)

  unfoldable pub expected_shortfall_bps :
      VenueQuote → Side → RoutingRegime → Carrier → Carrier → Carrier → Carrier
  unfolding score_venue_bps
  expected_shortfall_bps v side regime best age_penalty min_fill =
      let quote = quote_price_for_side v side in
      if le quote nought || le best nought
      then infinite_price
      else add
          (add (score_venue_bps v side regime min_fill)
            (price_penalty_bps (lower_price_is_better side) quote best))
          age_penalty

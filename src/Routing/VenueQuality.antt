-- ===== src/Routing/VenueQuality.antt =====
-- core/execution/common/quality/venue_quality_model.hpp over an abstract `double`: the estimates for each
-- venue that the router's quotes take. A latency is a number of microseconds.
pub mod Bounds
use trading_infrastructure_c.Common.{
  ℕ, zero, suc, ◌+◌, Bool, true, false, List, [], ◌∷◌, get_or, set, replicate, map, if◌then◌else◌,
  u64,
}
use trading_infrastructure_c.Common.Int.{ℤ, pos, pos_part}
use trading_infrastructure_c.Common.Float.{Float, max_of}
use trading_infrastructure_c.Connectors.OrderMap.{Exchange}
use trading_infrastructure_c.Routing.Router.{VenueQuote}

-- An exchange that is none of the four shares the state of the first.
abbrev pub index_for : Exchange → ℕ
index_for Exchange.okx = 1
index_for Exchange.coinbase = 2
index_for Exchange.kraken = 3
index_for _ = 0

abbrev pub is_unknown : Exchange → Bool
is_unknown Exchange.unknown = true
is_unknown _ = false

module _ (F : Float) where
  open F use {double, literal, of_ℕ}
  open F.double use {Carrier, zero as nought, lt, add, sub, mul, div, abs, neg}

  pub record Config : Type 0 where
    pub min_fill_probability : Carrier
    pub max_fill_probability : Carrier
    pub fill_probability_alpha : Carrier
    pub markout_alpha : Carrier
    pub reject_rate_alpha : Carrier
    pub cancel_latency_alpha : Carrier
    pub health_alpha : Carrier
    pub max_fill_step : Carrier
    pub max_markout_step_bps : Carrier
    pub max_reject_step : Carrier
    pub max_cancel_latency_step_bps : Carrier
    pub max_health_step_bps : Carrier
    pub reject_rate_penalty_bps : Carrier
    pub cancel_latency_penalty_scale_bps : Carrier
    pub health_penalty_scale_bps : Carrier
    pub passive_markout_penalty_scale : Carrier
    pub taker_markout_penalty_scale : Carrier
    pub stability_penalty_scale : Carrier

  pub record VenueQualitySnapshot : Type 0 where
    pub exchange : Exchange
    pub fill_probability : Carrier
    pub passive_markout_bps : Carrier
    pub taker_markout_bps : Carrier
    pub reject_rate : Carrier
    pub cancel_latency_penalty_bps : Carrier
    pub health_penalty_bps : Carrier
    pub stability_penalty_bps : Carrier
    pub composite_penalty_bps : Carrier
    pub composite_fill_probability : Carrier
    pub sample_count : ℕ

  pub record VenueState : Type 0 where
    pub fill_probability : Carrier
    pub passive_markout_bps : Carrier
    pub taker_markout_bps : Carrier
    pub reject_rate : Carrier
    pub cancel_latency_penalty_bps : Carrier
    pub health_penalty_bps : Carrier
    pub snapshot : VenueQualitySnapshot
    pub sample_count : ℕ

  abbrev pub half : Carrier
  half = literal 5 1

  abbrev pub one : Carrier
  one = literal 1 0

  abbrev pub blank_state : VenueState
  blank_state = record {
    fill_probability = half;
    passive_markout_bps = nought;
    taker_markout_bps = nought;
    reject_rate = nought;
    cancel_latency_penalty_bps = nought;
    health_penalty_bps = nought;
    snapshot = record {
      exchange = Exchange.unknown;
      fill_probability = half;
      passive_markout_bps = nought;
      taker_markout_bps = nought;
      reject_rate = nought;
      cancel_latency_penalty_bps = nought;
      health_penalty_bps = nought;
      stability_penalty_bps = nought;
      composite_penalty_bps = nought;
      composite_fill_probability = half;
      sample_count = 0;
    };
    sample_count = 0;
  }

  abbrev pub init : List VenueState
  init = replicate 4 blank_state

  -- std::clamp
  abbrev pub clamp : Carrier → Carrier → Carrier → Carrier
  clamp v lo hi = if lt v lo then lo else (if lt hi v then hi else v)

  -- The new value.
  unfoldable pub update_clamped :
      Carrier → Carrier → Carrier → Carrier → Carrier → Carrier → Carrier
  update_clamped value sample alpha max_step lo hi =
      clamp (add value (clamp (mul alpha (sub sample value)) (neg max_step) max_step)) lo hi

  unfoldable pub refresh_snapshot : Config → Exchange → VenueState → VenueState
  refresh_snapshot cfg exchange s =
      let reject = mul s.reject_rate cfg.reject_rate_penalty_bps in
      let cancel = mul s.cancel_latency_penalty_bps cfg.cancel_latency_penalty_scale_bps in
      let health = mul s.health_penalty_bps cfg.health_penalty_scale_bps in
      let stability =
        mul (abs (sub s.passive_markout_bps s.taker_markout_bps)) cfg.stability_penalty_scale in
      let drag = clamp (sub one s.fill_probability) nought one in
      let likely =
        mul (mul s.fill_probability (sub one (mul (literal 35 2) s.reject_rate)))
          (sub one (mul (literal 15 2) s.health_penalty_bps)) in
      record s {
        snapshot = record {
          exchange = exchange;
          fill_probability = s.fill_probability;
          passive_markout_bps = s.passive_markout_bps;
          taker_markout_bps = s.taker_markout_bps;
          reject_rate = s.reject_rate;
          cancel_latency_penalty_bps = cancel;
          health_penalty_bps = health;
          stability_penalty_bps = stability;
          composite_penalty_bps =
              add (add (add (add reject cancel) health) (mul drag (literal 4 0))) stability;
          composite_fill_probability =
              clamp likely cfg.min_fill_probability cfg.max_fill_probability;
          sample_count = s.sample_count;
        };
      }

  -- One observation for each `observe_…`.
  pub data Observation : Type 0 where
    fill_probability : Carrier → Observation
    markout : Bool → Carrier → Observation
    reject : Bool → Observation
    cancel_latency : ℤ → Observation
    health : Bool → Observation

  abbrev flag : Bool → Carrier
  flag b = if b then one else nought

  abbrev markout_step : Config → Carrier → Carrier → Carrier
  unfolding update_clamped
  markout_step cfg value sample =
      update_clamped value sample cfg.markout_alpha cfg.max_markout_step_bps (neg (literal 10 0))
        (literal 10 0)

  unfoldable pub estimate : Config → Observation → VenueState → VenueState
  unfolding markout_step
  estimate cfg (Observation.fill_probability p) s = record s {
    fill_probability =
        update_clamped s.fill_probability p cfg.fill_probability_alpha cfg.max_fill_step
          cfg.min_fill_probability cfg.max_fill_probability;
    sample_count = u64 (s.sample_count + 1);
  }
  estimate cfg (Observation.markout true m) s = record s {
    passive_markout_bps = markout_step cfg s.passive_markout_bps m;
    sample_count = u64 (s.sample_count + 1);
  }
  estimate cfg (Observation.markout false m) s = record s {
    taker_markout_bps = markout_step cfg s.taker_markout_bps m;
    sample_count = u64 (s.sample_count + 1);
  }
  estimate cfg (Observation.reject r) s = record s {
    reject_rate =
        update_clamped s.reject_rate (flag r) cfg.reject_rate_alpha cfg.max_reject_step nought one;
    sample_count = u64 (s.sample_count + 1);
  }
  estimate cfg (Observation.cancel_latency us) s =
      let ms = div (of_ℕ (pos_part us)) (literal 1_000 0) in
      record s {
        cancel_latency_penalty_bps =
            update_clamped s.cancel_latency_penalty_bps
              (clamp (div ms (literal 10 0)) nought (literal 5 0)) cfg.cancel_latency_alpha
              cfg.max_cancel_latency_step_bps nought (literal 5 0);
        sample_count = u64 (s.sample_count + 1);
      }
  estimate cfg (Observation.health h) s = record s {
    health_penalty_bps =
        update_clamped s.health_penalty_bps (if h then nought else one) cfg.health_alpha
          (div cfg.max_health_step_bps (max_of F one cfg.health_penalty_scale_bps)) nought one;
  }

  abbrev pub state_for : Exchange → List VenueState → VenueState
  state_for e states = get_or states (index_for e) blank_state

  unfoldable pub observe : Config → Exchange → Observation → List VenueState → List VenueState
  unfolding estimate refresh_snapshot
  observe cfg e o states =
      set states (index_for e) (refresh_snapshot cfg e (estimate cfg o (state_for e states)))

  unfoldable pub apply : List VenueState → VenueQuote F → VenueQuote F
  apply states v =
      let snap = (state_for v.exchange states).snapshot in
      if is_unknown v.exchange then v else record v {
        adaptive_fill_probability = snap.composite_fill_probability;
        passive_markout_bps = snap.passive_markout_bps;
        taker_markout_bps = snap.taker_markout_bps;
        reject_rate = snap.reject_rate;
        cancel_latency_penalty_bps = snap.cancel_latency_penalty_bps;
        health_penalty_bps = snap.health_penalty_bps;
        stability_penalty_bps = snap.stability_penalty_bps;
        quality_penalty_bps = snap.composite_penalty_bps;
      }

  unfoldable pub apply_all : List VenueState → List (VenueQuote F) → List (VenueQuote F)
  unfolding apply
  apply_all states venues = map (apply states) venues

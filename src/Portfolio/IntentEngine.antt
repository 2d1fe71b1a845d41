-- ===== src/Portfolio/IntentEngine.antt =====
-- core/execution/common/portfolio/portfolio_intent_engine.hpp over an abstract `double`. Of the signals, the
-- quotes and the ledger's snapshot the fields that the engine reads are modelled. `unset` is what stands
-- in the target of a new PortfolioIntent, which the source does not initialise.
pub mod Evaluate
pub mod Guards
mod Examples
use trading_infrastructure_c.Common.{
  ℕ, suc, Bool, true, false, not, ◌&&◌, ◌||◌, List, [], ◌∷◌, ◌++◌, ltb, leb, ◌==◌, length,
  if◌then◌else◌,
}
use trading_infrastructure_c.Common.Int.{ℤ, pos, ltb_ℤ, leb_ℤ}
use trading_infrastructure_c.Common.Float.{Float, max_of}

pub data Reason : Type 0 where
  alpha_positive alpha_negative alpha_decay negative_reversal positive_reversal risk_off
        shock_regime illiquid_regime stale_inventory stale_signal basis_too_wide health_degraded
        no_healthy_venues :
      Reason

pub data Urgency : Type 0 where
  passive balanced aggressive : Urgency

abbrev code : Reason → ℕ
code Reason.alpha_positive = 1
code Reason.alpha_negative = 2
code Reason.alpha_decay = 3
code Reason.negative_reversal = 4
code Reason.positive_reversal = 5
code Reason.risk_off = 6
code Reason.shock_regime = 7
code Reason.illiquid_regime = 8
code Reason.stale_inventory = 9
code Reason.stale_signal = 10
code Reason.basis_too_wide = 11
code Reason.health_degraded = 12
code Reason.no_healthy_venues = 13

abbrev has_reason : Reason → List Reason → Bool
has_reason r [] = false
has_reason r (s ∷ ss) = let rest = has_reason r ss in if code s == code r then true else rest

abbrev max_reasons : ℕ
max_reasons = 8

unfoldable pub append_reason : Reason → List Reason → List Reason
append_reason r rs =
    if has_reason r rs then rs else if ltb (length rs) max_reasons then rs ++ (r ∷ []) else rs

-- Appended on a condition.
abbrev pub append_if : Bool → Reason → List Reason → List Reason
append_if c r rs = if c then append_reason r rs else rs

module _ (F : Float) where
  open F use {double, literal}
  open F.double use {Carrier, zero as nought, le, lt, add, sub, mul, div, abs, neg}

  pub record PortfolioIntentConfig : Type 0 where
    pub max_position : Carrier
    pub min_entry_signal_bps : Carrier
    pub negative_reversal_signal_bps : Carrier
    pub positive_reversal_signal_bps : Carrier
    pub deadband_signal_bps : Carrier
    pub max_risk_score : Carrier
    pub shock_enter_threshold : Carrier
    pub shock_exit_threshold : Carrier
    pub illiquid_enter_threshold : Carrier
    pub illiquid_exit_threshold : Carrier
    pub regime_persistence_ticks : ℤ
    pub stale_inventory_ms : ℤ
    pub stale_signal_ms : ℤ
    pub max_basis_divergence_bps : Carrier
    pub stale_inventory_alpha_hold_bps : Carrier
    pub health_reduce_ratio : Carrier

  pub record PortfolioIntentContext : Type 0 where
    pub spot_mid_price : Carrier
    pub futures_mid_price : Carrier
    pub signal_age_ms : ℤ

  pub record AlphaSignal : Type 0 where
    pub signal_bps : Carrier
    pub risk_score : Carrier
    pub size_fraction : Carrier
    pub horizon_ticks : ℤ

  pub record RegimeSignal : Type 0 where
    pub p_shock : Carrier
    pub p_illiquid : Carrier

  pub record VenueQuote : Type 0 where
    pub enabled : Bool
    pub healthy : Bool
    pub depth_qty : Carrier
    pub taker_fee_bps : Carrier
    pub latency_penalty_bps : Carrier
    pub risk_penalty_bps : Carrier
    pub toxicity_bps : Carrier
    pub fill_probability : Carrier

  pub record PositionLedgerSnapshot : Type 0 where
    pub global_position : Carrier
    pub oldest_inventory_age_ms : ℤ

  pub record PortfolioIntent : Type 0 where
    pub target_global_position : Carrier
    pub position_delta : Carrier
    pub urgency : Urgency
    pub flatten_now : Bool
    pub max_shortfall_bps : Carrier
    pub expected_cost_bps : Carrier
    pub basis_slippage_bps : Carrier
    pub alpha_edge_bps : Carrier
    pub reason_codes : List Reason

  pub record Regime : Type 0 where
    pub active : Bool
    pub ticks : ℕ

  pub record IntentEngine : Type 0 where
    pub illiquid : Regime
    pub shock : Regime

  abbrev count_tick : Bool → Regime → ℤ → Regime
  count_tick passed r persistence =
      let ticks = if passed then suc r.ticks else 0 in
      if leb_ℤ persistence (pos ticks)
      then record { active = not r.active; ticks = 0 }
      else record r { ticks = ticks }

  unfoldable pub update_regime_hysteresis : Carrier → Carrier → Carrier → ℤ → Regime → Regime
  update_regime_hysteresis p enter exit persistence r =
      count_tick (if r.active then lt p exit else le enter p) r persistence

  abbrev pub clamp : Carrier → Carrier → Carrier → Carrier
  clamp v low high = if lt v low then low else if lt high v then high else v

  abbrev pub unit_clamp : Carrier → Carrier
  unit_clamp v = clamp v nought (literal 1 0)

  unfoldable pub clamp_position : PortfolioIntentConfig → Carrier → Carrier
  clamp_position cfg position = clamp position (neg cfg.max_position) cfg.max_position

  abbrev venue_cost : VenueQuote → Carrier
  venue_cost v =
      add (add (add (add v.taker_fee_bps v.latency_penalty_bps) v.risk_penalty_bps) v.toxicity_bps)
        (mul (max_of F nought (sub (literal 1 0) v.fill_probability)) (literal 2 0))

  -- The loop, with the best cost so far and whether there is one.
  unfoldable pub best_cost : List VenueQuote → Bool × Carrier → Carrier
  best_cost [] (found, best) = if found then best else nought
  best_cost (v ∷ vs) (found, best) = best_cost vs (
      if (not v.healthy || le v.depth_qty nought)
      then (found, best)
      else (if (not found || lt (venue_cost v) best) then (true, venue_cost v) else (found, best)))

  unfoldable pub estimate_expected_cost_bps : List VenueQuote → Carrier
  unfolding best_cost
  estimate_expected_cost_bps vs = best_cost vs (false, nought)

  unfoldable pub compute_basis_bps : Carrier → Carrier → Carrier
  compute_basis_bps spot futures =
      if le spot nought || le futures nought
      then nought
      else mul (div (abs (sub futures spot)) spot) (literal 10_000 0)

  abbrev pub count_if : (VenueQuote → Bool) → List VenueQuote → ℕ
  count_if p [] = 0
  count_if p (v ∷ vs) = let rest = count_if p vs in if p v then suc rest else rest

  unfoldable pub count_healthy_venues : List VenueQuote → ℕ
  count_healthy_venues vs = count_if (λ v. v.enabled && v.healthy && lt nought v.depth_qty) vs

  unfoldable pub count_enabled_venues : List VenueQuote → ℕ
  count_enabled_venues vs = count_if (λ v. v.enabled) vs

  unfoldable pub clamp_reduce_target : Carrier → Carrier → Carrier
  clamp_reduce_target current target =
      if le (abs current) (literal 1 9)
      then target
      else if (lt nought current && lt target nought) || (lt current nought && lt nought target)
      then nought
      else if lt (abs current) (abs target)
      then mul current (literal 5 1)
      else target

  unfoldable pub urgency_buffer_bps : AlphaSignal → Carrier → Carrier
  urgency_buffer_bps a delta =
      if leb_ℤ a.horizon_ticks (pos 2) || le (literal 30 2) (abs delta)
      then literal 1 0
      else if leb_ℤ (pos 8) a.horizon_ticks && le (abs delta) (literal 10 2)
      then literal 3 0
      else literal 2 0

  unfoldable pub choose_urgency : AlphaSignal → Carrier → Carrier → Bool → ℕ → Urgency
  choose_urgency a current target stale healthy =
      let delta = abs (sub target current) in
      if stale
        || leb healthy 1
        || leb_ℤ a.horizon_ticks (pos 2)
        || le (literal 30 2) delta
        || le (literal 55 2) a.risk_score
      then aggressive
      else if leb_ℤ (pos 8) a.horizon_ticks
          && le delta (literal 10 2)
          && lt a.risk_score (literal 35 2)
      then passive
      else balanced

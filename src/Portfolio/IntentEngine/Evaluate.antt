-- ===== src/Portfolio/IntentEngine/Evaluate.antt =====
-- `evaluate` of core/execution/common/portfolio/portfolio_intent_engine.hpp.
use trading_infrastructure_c.Common.{ℕ, Bool, not, ◌&&◌, ◌||◌, List, [], ltb, ◌==◌, if◌then◌else◌}
use trading_infrastructure_c.Common.Int.{pos, ltb_ℤ, leb_ℤ}
use trading_infrastructure_c.Common.Float.{Float, max_of}
use trading_infrastructure_c.Portfolio.IntentEngine.{
  Reason, aggressive, append_reason, append_if, PortfolioIntentConfig, PortfolioIntentContext,
  AlphaSignal, RegimeSignal, VenueQuote, PositionLedgerSnapshot, PortfolioIntent, IntentEngine,
  clamp_position, unit_clamp, clamp_reduce_target, urgency_buffer_bps, choose_urgency,
  estimate_expected_cost_bps, compute_basis_bps, count_healthy_venues, count_enabled_venues,
  update_regime_hysteresis,
}

module _ (F : Float) where
  open F use {double, literal}
  open F.double use {Carrier, zero as nought, le, lt, add, sub, mul, div, abs, neg}

  -- What `evaluate` reads, and what it has computed when it comes to the decision.
  pub record Inputs : Type 0 where
    pub alpha : AlphaSignal F
    pub regime : RegimeSignal F
    pub current : Carrier
    pub expected_cost : Carrier
    pub basis : Carrier
    pub healthy : ℕ
    pub enabled : ℕ
    pub is_stale_inventory : Bool
    pub is_stale_signal : Bool
    pub is_shock : Bool
    pub is_illiquid : Bool

  abbrev pub is_risk_off : PortfolioIntentConfig F → Inputs → Bool
  is_risk_off cfg i = le cfg.max_risk_score i.alpha.risk_score

  abbrev pub is_negative_reversal : PortfolioIntentConfig F → Inputs → Bool
  is_negative_reversal cfg i = le i.alpha.signal_bps cfg.negative_reversal_signal_bps

  abbrev pub is_positive_reversal : PortfolioIntentConfig F → Inputs → Bool
  is_positive_reversal cfg i =
      lt i.current nought && le cfg.positive_reversal_signal_bps i.alpha.signal_bps

  abbrev pub is_basis_too_wide : PortfolioIntentConfig F → Inputs → Bool
  is_basis_too_wide cfg i =
      lt nought cfg.max_basis_divergence_bps && lt cfg.max_basis_divergence_bps i.basis

  abbrev pub is_degraded : Inputs → Bool
  is_degraded i = ltb 0 i.enabled && ltb i.healthy i.enabled

  abbrev pub must_flatten : PortfolioIntentConfig F → Inputs → Bool
  must_flatten cfg i =
      is_risk_off cfg i
      || is_negative_reversal cfg i
      || is_positive_reversal cfg i
      || i.is_shock
      || i.is_stale_signal
      || is_basis_too_wide cfg i

  unfoldable pub guard_reasons : PortfolioIntentConfig F → Inputs → List Reason
  unfolding append_reason
  guard_reasons cfg i = append_if (is_degraded i) Reason.health_degraded (
      append_if (is_basis_too_wide cfg i) Reason.basis_too_wide (
        append_if i.is_stale_signal Reason.stale_signal (
          append_if i.is_stale_inventory Reason.stale_inventory (
            append_if i.is_illiquid Reason.illiquid_regime (
              append_if i.is_shock Reason.shock_regime (
                append_if (is_positive_reversal cfg i) Reason.positive_reversal (
                  append_if (is_negative_reversal cfg i) Reason.negative_reversal
                    (append_if (is_risk_off cfg i) Reason.risk_off []))))))))

  -- The intents that close the position.
  abbrev flat_intent : Carrier → Carrier → List Reason → Inputs → PortfolioIntent F
  flat_intent unset margin reasons i = record {
    target_global_position = unset;
    position_delta = neg i.current;
    urgency = aggressive;
    flatten_now = lt nought (abs i.current);
    max_shortfall_bps = add i.expected_cost margin;
    expected_cost_bps = i.expected_cost;
    basis_slippage_bps = i.basis;
    alpha_edge_bps = sub i.alpha.signal_bps i.expected_cost;
    reason_codes = reasons;
  }

  pub entry_magnitude : PortfolioIntentConfig F → Inputs → Carrier
  entry_magnitude cfg i =
      let alpha_scale = unit_clamp F (
        div (sub (abs i.alpha.signal_bps) i.expected_cost)
          (max_of F cfg.min_entry_signal_bps (literal 1 0))) in
      let risk_scale = unit_clamp F (sub (literal 1 0) i.alpha.risk_score) in
      let health_scale = if is_degraded i then cfg.health_reduce_ratio else literal 1 0 in
      let regime_scale = unit_clamp F (
        sub (literal 1 0)
          (add (mul (literal 5 1) i.regime.p_illiquid) (mul (literal 35 2) i.regime.p_shock))) in
      mul
        (mul
          (mul (mul (mul cfg.max_position (unit_clamp F i.alpha.size_fraction)) alpha_scale)
            risk_scale)
          health_scale)
        regime_scale

  -- The target by the signal, and its reason.
  pub signal_target : PortfolioIntentConfig F → Inputs → Carrier × Reason
  unfolding entry_magnitude
  signal_target cfg i =
      let signal = i.alpha.signal_bps in
      let in_deadband = le (abs signal) cfg.deadband_signal_bps in
      if not in_deadband && le cfg.min_entry_signal_bps signal && lt i.expected_cost signal
      then (entry_magnitude cfg i, Reason.alpha_positive)
      else if not in_deadband
          && le signal (neg cfg.min_entry_signal_bps)
          && lt i.expected_cost (neg signal)
      then (neg (entry_magnitude cfg i), Reason.alpha_negative)
      else (nought, Reason.alpha_decay)

  -- The target before it is clamped.
  unfoldable pub reduced_target : PortfolioIntentConfig F → Inputs → Carrier
  unfolding signal_target clamp_reduce_target
  reduced_target cfg i =
      let wanted = (signal_target cfg i).0 in
      let alpha_strong = le cfg.stale_inventory_alpha_hold_bps (abs i.alpha.signal_bps) in
      if i.is_illiquid || (i.is_stale_inventory && not alpha_strong)
      then clamp_reduce_target F i.current wanted
      else wanted

  unfoldable pub targeted_intent : PortfolioIntentConfig F → Inputs → PortfolioIntent F
  unfolding signal_target guard_reasons append_reason clamp_position reduced_target
      urgency_buffer_bps choose_urgency
  targeted_intent cfg i =
      let target = clamp_position F cfg (reduced_target cfg i) in
      let delta = sub target i.current in
      record {
        target_global_position = target;
        position_delta = delta;
        urgency = choose_urgency F i.alpha i.current target i.is_stale_inventory i.healthy;
        flatten_now =
            le (abs target) (literal 1 9)
            && lt (literal 1 9) (abs i.current)
            && lt (literal 1 9) (abs delta);
        max_shortfall_bps = add i.expected_cost (urgency_buffer_bps F i.alpha delta);
        expected_cost_bps = i.expected_cost;
        basis_slippage_bps = i.basis;
        alpha_edge_bps = sub i.alpha.signal_bps i.expected_cost;
        reason_codes = append_reason (signal_target cfg i).1 (guard_reasons cfg i);
      }

  unfoldable pub decide : Carrier → PortfolioIntentConfig F → Inputs → PortfolioIntent F
  unfolding guard_reasons targeted_intent append_reason
  decide unset cfg i =
      if i.healthy == 0
      then flat_intent unset (literal 3 0) (append_reason Reason.no_healthy_venues []) i
      else if must_flatten cfg i
      then flat_intent unset (literal 25 1) (guard_reasons cfg i) i
      else targeted_intent cfg i

  unfoldable pub update_regimes :
      PortfolioIntentConfig F → RegimeSignal F → IntentEngine F → IntentEngine F
  unfolding update_regime_hysteresis
  update_regimes cfg r e = record {
    illiquid =
        update_regime_hysteresis F r.p_illiquid cfg.illiquid_enter_threshold
          cfg.illiquid_exit_threshold cfg.regime_persistence_ticks e.illiquid;
    shock =
        update_regime_hysteresis F r.p_shock cfg.shock_enter_threshold cfg.shock_exit_threshold
          cfg.regime_persistence_ticks e.shock;
  }

  unfoldable pub inputs :
      PortfolioIntentConfig F
      → AlphaSignal F
      → RegimeSignal F
      → PositionLedgerSnapshot F
      → List (VenueQuote F)
      → PortfolioIntentContext F
      → IntentEngine F
      → Inputs
  unfolding clamp_position estimate_expected_cost_bps compute_basis_bps count_healthy_venues
      count_enabled_venues
  inputs cfg alpha regime ledger venues ctx e =
      let current = clamp_position F cfg ledger.global_position in
      record {
        alpha = alpha;
        regime = regime;
        current = current;
        expected_cost = estimate_expected_cost_bps F venues;
        basis = compute_basis_bps F ctx.spot_mid_price ctx.futures_mid_price;
        healthy = count_healthy_venues F venues;
        enabled = count_enabled_venues F venues;
        is_stale_inventory =
            leb_ℤ cfg.stale_inventory_ms ledger.oldest_inventory_age_ms && lt nought (abs current);
        is_stale_signal =
            ltb_ℤ (pos 0) cfg.stale_signal_ms && ltb_ℤ cfg.stale_signal_ms ctx.signal_age_ms;
        is_shock = e.shock.active;
        is_illiquid = e.illiquid.active;
      }

  unfoldable pub evaluate :
      Carrier
      → PortfolioIntentConfig F
      → AlphaSignal F
      → RegimeSignal F
      → PositionLedgerSnapshot F
      → List (VenueQuote F)
      → PortfolioIntentContext F
      → IntentEngine F
      → PortfolioIntent F × IntentEngine F
  unfolding decide inputs update_regimes
  evaluate unset cfg alpha regime ledger venues ctx e =
      let updated = update_regimes cfg regime e in
      (decide unset cfg (inputs cfg alpha regime ledger venues ctx updated), updated)

-- ===== src/Risk/GlobalRisk/Futures.antt =====
-- The gate for futures of core/risk/global_risk_controls.hpp.
use trading_infrastructure_c.Common.{ℕ, Bool, not, ◌&&◌, ◌||◌, List, [], ◌∷◌, if◌then◌else◌}
use trading_infrastructure_c.Common.Float.{Float}
use trading_infrastructure_c.Connectors.OrderMap.{Exchange}
use trading_infrastructure_c.Portfolio.PositionLedger.{same_symbol}
use trading_infrastructure_c.Risk.GlobalRisk.{
  GlobalRiskCheckResult, pass, invalid_input, futures_leverage_cap, futures_maintenance_margin_cap,
  futures_mark_index_divergence_cap, futures_funding_cost_cap, is_empty, GlobalRiskConfig,
  SymbolState, GlobalRiskControls, exceeds, check_order, refuse, commit_order,
}

module _ (F : Float) where
  open F use {double, literal, is_finite}
  open F.double use {Carrier, zero as nought, le, lt, add, sub, mul, div, abs}

  pub record FuturesRiskGateSymbolConfig : Type 0 where
    pub symbol : List ℕ
    pub max_leverage : Carrier

  -- `symbol_limits` holds the first `symbol_limit_count` entries of the source's array.
  pub record FuturesRiskGateConfig : Type 0 where
    pub enabled : Bool
    pub max_projected_funding_cost_bps : Carrier
    pub funding_cost_scale_start_bps : Carrier
    pub min_funding_scale : Carrier
    pub max_mark_index_divergence_bps : Carrier
    pub max_maintenance_margin_ratio : Carrier
    pub default_max_leverage : Carrier
    pub symbol_limits : List FuturesRiskGateSymbolConfig

  pub record FuturesRiskContext : Type 0 where
    pub collateral_notional : Carrier
    pub current_abs_notional : Carrier
    pub maintenance_margin_ratio : Carrier
    pub mark_price : Carrier
    pub index_price : Carrier
    pub funding_rate_bps : Carrier
    pub hours_to_funding : Carrier

  abbrev pub clamp : Carrier → Carrier → Carrier → Carrier
  clamp v low high = if lt v low then low else if lt high v then high else v

  abbrev pub max_leverage_for_symbol : List ℕ → Carrier → List FuturesRiskGateSymbolConfig → Carrier
  max_leverage_for_symbol symbol default [] = default
  max_leverage_for_symbol symbol default (l ∷ ls) =
      let rest = max_leverage_for_symbol symbol default ls in
      if same_symbol l.symbol symbol then l.max_leverage else rest

  unfoldable pub context_invalid : FuturesRiskContext → Bool
  context_invalid c =
      not (is_finite c.collateral_notional)
      || le c.collateral_notional nought
      || not (is_finite c.current_abs_notional)
      || lt c.current_abs_notional nought
      || not (is_finite c.mark_price)
      || le c.mark_price nought
      || not (is_finite c.index_price)
      || le c.index_price nought
      || not (is_finite c.maintenance_margin_ratio)
      || lt c.maintenance_margin_ratio nought
      || not (is_finite c.funding_rate_bps)
      || not (is_finite c.hours_to_funding)
      || lt c.hours_to_funding nought

  unfoldable pub projected_funding_cost_bps : FuturesRiskContext → Carrier
  projected_funding_cost_bps c = mul (abs c.funding_rate_bps) (div c.hours_to_funding (literal 8 0))

  unfoldable pub scale_notional : FuturesRiskGateConfig → Carrier → Carrier → Carrier
  scale_notional g cost notional =
      let span = sub g.max_projected_funding_cost_bps g.funding_cost_scale_start_bps in
      let t = clamp (div (sub cost g.funding_cost_scale_start_bps) span) nought (literal 1 0) in
      let scale = sub (literal 1 0) (mul t (sub (literal 1 0) g.min_funding_scale)) in
      if lt nought g.funding_cost_scale_start_bps
        && lt g.funding_cost_scale_start_bps g.max_projected_funding_cost_bps
        && lt g.funding_cost_scale_start_bps cost
      then mul notional (clamp scale g.min_funding_scale (literal 1 0))
      else notional

  -- The result and `scaled_notional`.
  unfoldable pub check_futures_gate :
      FuturesRiskGateConfig
      → List ℕ
      → Carrier
      → FuturesRiskContext
      → GlobalRiskCheckResult × Carrier
  unfolding context_invalid projected_funding_cost_bps scale_notional
  check_futures_gate g symbol notional c =
      let divergence_bps =
        mul (div (abs (sub c.mark_price c.index_price)) c.index_price) (literal 10_000 0) in
      let max_leverage = max_leverage_for_symbol symbol g.default_max_leverage g.symbol_limits in
      let leverage = div (add c.current_abs_notional (abs notional)) c.collateral_notional in
      let cost = projected_funding_cost_bps c in
      if not g.enabled
      then (pass, notional)
      else if is_empty symbol || context_invalid c
      then (invalid_input, notional)
      else if exceeds F g.max_maintenance_margin_ratio c.maintenance_margin_ratio
      then (futures_maintenance_margin_cap, notional)
      else if exceeds F g.max_mark_index_divergence_bps divergence_bps
      then (futures_mark_index_divergence_cap, notional)
      else if exceeds F max_leverage leverage
      then (futures_leverage_cap, notional)
      else if exceeds F g.max_projected_funding_cost_bps cost
      then (futures_funding_cost_cap, notional)
      else (pass, scale_notional g cost notional)

  unfoldable pub check_gated :
      (ℕ → SymbolState F)
      → GlobalRiskConfig F
      → Exchange
      → List ℕ
      → GlobalRiskCheckResult × Carrier
      → GlobalRiskControls F
      → GlobalRiskCheckResult × Carrier
  unfolding check_order
  check_gated stray cfg exchange symbol (pass, scaled) s =
      (check_order F stray cfg exchange symbol scaled s, scaled)
  check_gated stray cfg exchange symbol (r, scaled) s = (r, scaled)

  unfoldable pub check_futures_order :
      (ℕ → SymbolState F)
      → GlobalRiskConfig F
      → FuturesRiskGateConfig
      → Exchange
      → List ℕ
      → Carrier
      → FuturesRiskContext
      → GlobalRiskControls F
      → GlobalRiskCheckResult × Carrier
  unfolding check_gated check_futures_gate
  check_futures_order stray cfg g exchange symbol notional c s =
      check_gated stray cfg exchange symbol (check_futures_gate g symbol notional c) s

  unfoldable pub commit_gated :
      (ℕ → SymbolState F)
      → GlobalRiskConfig F
      → Exchange
      → List ℕ
      → GlobalRiskCheckResult × Carrier
      → GlobalRiskControls F
      → GlobalRiskCheckResult × GlobalRiskControls F
  unfolding commit_order refuse
  commit_gated stray cfg exchange symbol (pass, scaled) s =
      commit_order F stray cfg exchange symbol scaled s
  commit_gated stray cfg exchange symbol (r, scaled) s = refuse F cfg r s

  unfoldable pub commit_futures_order :
      (ℕ → SymbolState F)
      → GlobalRiskConfig F
      → FuturesRiskGateConfig
      → Exchange
      → List ℕ
      → Carrier
      → FuturesRiskContext
      → GlobalRiskControls F
      → GlobalRiskCheckResult × GlobalRiskControls F
  unfolding commit_gated check_futures_order
  commit_futures_order stray cfg g exchange symbol notional c s =
      commit_gated stray cfg exchange symbol
        (check_futures_order stray cfg g exchange symbol notional c s) s

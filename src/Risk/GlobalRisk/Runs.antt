-- ===== src/Risk/GlobalRisk/Runs.antt =====
-- Runs of orders of core/risk/global_risk_controls.hpp, and the caps on notionals over them.
use trading_infrastructure_c.Common.{◌≡◌, refl, inl, inr, ℕ, true, false, List, [], ◌∷◌, Bool-cases}
use trading_infrastructure_c.Common.Slots.{get_or-replicate}
use trading_infrastructure_c.Common.Float.{Float}
use trading_infrastructure_c.Connectors.OrderMap.{Exchange}
use trading_infrastructure_c.Risk.KillSwitch.{KillSwitch}
use trading_infrastructure_c.Risk.GlobalRisk.{
  GlobalRiskCheckResult, num_venues, GlobalRiskConfig, SymbolState, GlobalRiskControls, init,
  exceeds, commit_order,
}
use trading_infrastructure_c.Risk.GlobalRisk.Futures.{
  FuturesRiskGateConfig, FuturesRiskContext, check_futures_order, commit_futures_order,
}
use trading_infrastructure_c.Risk.GlobalRisk.Caps.{
  WithinCaps, commit_order-WithinCaps, commit_gated-WithinCaps,
}

module _ (F : Float) where
  open F use {double, is_finite}
  open F.double use {Carrier, zero as nought, lt, equal, add, abs}

  -- An order of either kind, and a run of them.
  pub data Request : Type 0 where
    spot : Exchange → List ℕ → Carrier → Request
    futures : Exchange → List ℕ → Carrier → FuturesRiskContext F → Request

  unfoldable pub commit :
      (ℕ → SymbolState F)
      → GlobalRiskConfig F
      → FuturesRiskGateConfig F
      → Request
      → GlobalRiskControls F
      → GlobalRiskCheckResult × GlobalRiskControls F
  unfolding commit_order commit_futures_order
  commit stray cfg g (spot exchange symbol notional) s =
      commit_order F stray cfg exchange symbol notional s
  commit stray cfg g (futures exchange symbol notional c) s =
      commit_futures_order F stray cfg g exchange symbol notional c s

  unfoldable pub run :
      (ℕ → SymbolState F)
      → GlobalRiskConfig F
      → FuturesRiskGateConfig F
      → List Request
      → GlobalRiskControls F
      → GlobalRiskControls F
  unfolding commit
  run stray cfg g [] s = s
  run stray cfg g (r ∷ rs) s = run stray cfg g rs (commit stray cfg g r s).1

  commit-WithinCaps :
      (stray : ℕ → SymbolState F) (cfg : GlobalRiskConfig F) (g : FuturesRiskGateConfig F)
      (r : Request) (s : GlobalRiskControls F)
      → WithinCaps F cfg s
      → WithinCaps F cfg (commit stray cfg g r s).1
  unfolding commit commit_futures_order
  commit-WithinCaps stray cfg g (spot exchange symbol notional) s h =
      commit_order-WithinCaps F stray cfg exchange symbol notional s h
  commit-WithinCaps stray cfg g (futures exchange symbol notional c) s h =
      commit_gated-WithinCaps F stray cfg exchange symbol
        (check_futures_order F stray cfg g exchange symbol notional c s) s h

  run-kept :
      (stray : ℕ → SymbolState F) (cfg : GlobalRiskConfig F) (g : FuturesRiskGateConfig F)
      (rs : List Request) (s : GlobalRiskControls F)
      → WithinCaps F cfg s
      → WithinCaps F cfg (run stray cfg g rs s)
  unfolding run
  run-kept stray cfg g [] s h = h
  run-kept stray cfg g (r ∷ rs) s h =
      run-kept stray cfg g rs (commit stray cfg g r s).1 (commit-WithinCaps stray cfg g r s h)

  exceeds-nought :
      (cap : Carrier)
      → ((c : Carrier) → lt nought c ≡ true → lt c nought ≡ false)
      → exceeds F cap nought ≡ false
  exceeds-nought cap asym = elim (Bool-cases (lt nought cap)) [
    | inl e ↦ rw e (asym cap e)
    | inr e ↦ rw e refl
  ]

  init-WithinCaps :
      (cfg : GlobalRiskConfig F) (k : KillSwitch)
      → ((c : Carrier) → lt nought c ≡ true → lt c nought ≡ false)
      → abs nought ≡ nought
      → WithinCaps F cfg (init F k)
  unfolding init
  init-WithinCaps cfg k asym abs_nought = (
    exceeds-nought cfg.max_gross_notional asym,
    rw abs_nought (exceeds-nought cfg.max_net_notional asym),
    λ v. rw (get_or-replicate num_venues v nought) (exceeds-nought cfg.max_venue_notional asym),
  )

  -- Where no number is both above and below 0 and the absolute value of 0 is 0: after every run of spot and
  -- futures orders from the start, committed and refused, neither the gross notional, nor the absolute net
  -- notional, nor the gross notional of any venue is above its cap, if that cap is positive.
  pub run-WithinCaps :
      (stray : ℕ → SymbolState F) (cfg : GlobalRiskConfig F) (g : FuturesRiskGateConfig F)
      (rs : List Request) (k : KillSwitch)
      → ((c : Carrier) → lt nought c ≡ true → lt c nought ≡ false)
      → abs nought ≡ nought
      → WithinCaps F cfg (run stray cfg g rs (init F k))
  run-WithinCaps stray cfg g rs k asym abs_nought =
      run-kept stray cfg g rs (init F k) (init-WithinCaps cfg k asym abs_nought)

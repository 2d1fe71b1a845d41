-- ===== src/Risk/GlobalRisk/Refusals.antt =====
-- What an order leaves that core/risk/global_risk_controls.hpp refuses, and when it trips the kill switch.
use trading_infrastructure_c.Common.{
  ◌≡◌, refl, inl, inr, ℕ, false, not, ◌&&◌, Option, none, some, List, if◌then◌else◌, leb, arith,
  Bool-cases,
}
use trading_infrastructure_c.Common.Float.{Float}
use trading_infrastructure_c.Connectors.OrderMap.{Exchange}
use trading_infrastructure_c.Risk.KillSwitch.{KillSwitch, KillReason, trigger}
use trading_infrastructure_c.Risk.GlobalRisk.{
  GlobalRiskCheckResult, pass, max_symbols, GlobalRiskConfig, SymbolState, GlobalRiskControls,
  find_symbol, check_order, create_symbol, choose_symbol, get_or_create_symbol, book_order, refuse,
  commit_checked, commit_order,
}
use trading_infrastructure_c.Risk.GlobalRisk.Caps.{is_pass, SameSums}

module _ (F : Float) where
  open F use {double}
  open F.double use {Carrier}

  -- All sums and the table of symbols.
  abbrev pub Unchanged : GlobalRiskControls F → GlobalRiskControls F → Type 0
  Unchanged s t = SameSums F s t × (s.symbol_states ≡ t.symbol_states)

  abbrev pub tripped : GlobalRiskConfig F → GlobalRiskCheckResult → KillSwitch → KillSwitch
  tripped cfg r k =
      if cfg.kill_on_breach && not (is_pass r) then trigger KillReason.circuit_breaker k else k

  -- What commit_order does on check result `r`.
  abbrev Outcome :
      GlobalRiskConfig F
      → GlobalRiskCheckResult
      → GlobalRiskControls F
      → GlobalRiskCheckResult × GlobalRiskControls F
      → Type 0
  Outcome cfg r s out =
      (is_pass out.0 ≡ false → Unchanged out.1 s)
      × (out.1.kill_switch ≡ tripped cfg r s.kill_switch)

  book_chosen :
      (stray : ℕ → SymbolState F) (exchange : Exchange) (symbol : List ℕ) (notional : Carrier)
      (o : Option ℕ) (s : GlobalRiskControls F)
      → (is_pass (book_order F stray exchange notional (choose_symbol F symbol o s)).0 ≡ false
          → Unchanged (book_order F stray exchange notional (choose_symbol F symbol o s)).1 s)
        × ((book_order F stray exchange notional (choose_symbol F symbol o s)).1.kill_switch
            ≡ s.kill_switch)
  unfolding book_order choose_symbol create_symbol
  book_chosen stray exchange symbol notional (some i) s = (λ h. ground (arith, h), refl)
  book_chosen stray exchange symbol notional none s =
      elim (Bool-cases (leb max_symbols s.next_slot)) [
        | inl e ↦ rw e (λ _. ((refl, refl, refl), refl), refl)
        | inr e ↦ rw e (λ h. ground (arith, h), refl)
      ]

  refuse-Outcome :
      (cfg : GlobalRiskConfig F) (r : GlobalRiskCheckResult) (s : GlobalRiskControls F)
      → is_pass r ≡ false
      → Outcome cfg r s (refuse F cfg r s)
  unfolding refuse
  refuse-Outcome cfg r s refused = (
    λ _. ((refl, refl, refl), refl),
    elim (Bool-cases cfg.kill_on_breach) [ inl e ↦ rw (e, refused) refl | inr e ↦ rw e refl ],
  )

  commit_checked-Outcome :
      (stray : ℕ → SymbolState F) (cfg : GlobalRiskConfig F) (exchange : Exchange) (symbol : List ℕ)
      (notional : Carrier) (r : GlobalRiskCheckResult) (s : GlobalRiskControls F)
      → Outcome cfg r s (commit_checked F stray cfg exchange symbol notional r s)
  unfolding commit_checked get_or_create_symbol
  commit_checked-Outcome stray cfg exchange symbol notional pass s =
      let (kept, kill) =
        book_chosen stray exchange symbol notional (find_symbol F stray symbol s) s in
      (kept, elim (Bool-cases cfg.kill_on_breach) [ inl e ↦ rw e kill | inr e ↦ rw e kill ])
  commit_checked-Outcome stray cfg exchange symbol notional r s = refuse-Outcome cfg r s refl

  -- For every order and every state: if commit_order does not return OK, for a refused check or a full
  -- table, then the sums of the book, of every venue and of every symbol are as before; and the kill
  -- switch is triggered with reason CIRCUIT_BREAKER if the check refused the order and the configuration
  -- asks for it, and is as before in every other case.
  pub commit_order-refused :
      (stray : ℕ → SymbolState F) (cfg : GlobalRiskConfig F) (exchange : Exchange) (symbol : List ℕ)
      (notional : Carrier) (s : GlobalRiskControls F)
      → (is_pass (commit_order F stray cfg exchange symbol notional s).0 ≡ false
          → Unchanged (commit_order F stray cfg exchange symbol notional s).1 s)
        × ((commit_order F stray cfg exchange symbol notional s).1.kill_switch
            ≡ tripped cfg (check_order F stray cfg exchange symbol notional s) s.kill_switch)
  unfolding commit_order
  commit_order-refused stray cfg exchange symbol notional s =
      commit_checked-Outcome stray cfg exchange symbol notional
        (check_order F stray cfg exchange symbol notional s) s

-- ===== src/Risk/GlobalRisk/Table.antt =====
-- The reads of the symbol table in core/risk/global_risk_controls.hpp.
use trading_infrastructure_c.Common.{
  ◌≡◌, refl, ℕ, zero, suc, ◌+◌, ◌≤◌, ◌<◌, Bool, true, false, ◌&&◌, Option, none, some, List, [],
  ◌∷◌, if◌then◌else◌, length, get_or, arith,
}
use trading_infrastructure_c.Common.Float.{Float}
use trading_infrastructure_c.Connectors.OrderMap.{Exchange}
use trading_infrastructure_c.Portfolio.PositionLedger.{same_symbol}
use trading_infrastructure_c.Risk.GlobalRisk.{
  GlobalRiskConfig, SymbolState, GlobalRiskControls, slot_at, find_slot, find_symbol, found_slot,
  check_order,
}

inside :
    {A : Type 0} (d e : A) (xs : List A) (i : ℕ) → i < length xs → get_or xs i d ≡ get_or xs i e
inside d e [] i h = ground arith
inside d e (x ∷ xs) zero h = refl
inside d e (x ∷ xs) (suc i) h = inside d e xs i (omega (arith, h))

taken_or_rest :
    (t : Bool) (i n j : ℕ) (rest : Option ℕ)
    → (rest ≡ some j → j < i + suc n)
    → (if t then some i else rest) ≡ some j
    → j < i + suc n
taken_or_rest true i n j rest h e = ground arith
taken_or_rest false i n j rest h e = h e

module _ (F : Float) where
  open F use {double}
  open F.double use {Carrier}

  slot_at-inside :
      (stray other : ℕ → SymbolState F) (slots : List (SymbolState F)) (i : ℕ)
      → i < length slots
      → slot_at F stray slots i ≡ slot_at F other slots i
  slot_at-inside stray other slots i h = inside (stray i) (other i) slots i h

  find_slot-inside :
      (stray other : ℕ → SymbolState F) (symbol : List ℕ) (slots : List (SymbolState F)) (n i : ℕ)
      → i + n ≤ length slots
      → find_slot F stray symbol slots n i ≡ find_slot F other symbol slots n i
  unfolding find_slot
  find_slot-inside stray other symbol slots zero i h = refl
  find_slot-inside stray other symbol slots (suc n) i h =
      rw
        (
          slot_at-inside stray other slots i (omega (arith, h)),
          find_slot-inside stray other symbol slots n (suc i) (omega (arith, h)),
        )
        refl

  find_slot-below :
      (stray : ℕ → SymbolState F) (symbol : List ℕ) (slots : List (SymbolState F)) (n i j : ℕ)
      → find_slot F stray symbol slots n i ≡ some j
      → j < i + n
  unfolding find_slot
  find_slot-below stray symbol slots zero i j h = ground arith
  find_slot-below stray symbol slots (suc n) i j h =
      let slot = slot_at F stray slots i in
      taken_or_rest (slot.active && same_symbol slot.symbol symbol) i n j
        (find_slot F stray symbol slots n (suc i))
        (λ e. omega (arith, find_slot-below stray symbol slots n (suc i) j e)) h

  found_slot-inside :
      (stray other : ℕ → SymbolState F) (o : Option ℕ) (s : GlobalRiskControls F)
      → ((i : ℕ) → o ≡ some i → i < length s.symbol_states)
      → found_slot F stray o s ≡ found_slot F other o s
  found_slot-inside stray other none s h = refl
  found_slot-inside stray other (some i) s h =
      slot_at-inside stray other s.symbol_states i (h i refl)

  find_symbol-inside :
      (stray other : ℕ → SymbolState F) (symbol : List ℕ) (s : GlobalRiskControls F)
      → s.next_slot ≤ length s.symbol_states
      → found_slot F stray (find_symbol F stray symbol s) s
        ≡ found_slot F other (find_symbol F other symbol s) s
  unfolding find_symbol
  find_symbol-inside stray other symbol s h =
      rw (find_slot-inside stray other symbol s.symbol_states s.next_slot 0 (omega (arith, h))) (
        found_slot-inside stray other (find_slot F other symbol s.symbol_states s.next_slot 0) s
          (λ i e. omega (arith, h, find_slot-below other symbol s.symbol_states s.next_slot 0 i e)))

  -- While the counter of used slots is not past the end of the symbol table, check_order reads the table
  -- inside its bounds only: its answer, for every order, does not depend on what lies behind the table.
  pub check_order-inside :
      (stray other : ℕ → SymbolState F) (cfg : GlobalRiskConfig F) (exchange : Exchange)
      (symbol : List ℕ) (notional : Carrier) (s : GlobalRiskControls F)
      → s.next_slot ≤ length s.symbol_states
      → check_order F stray cfg exchange symbol notional s
        ≡ check_order F other cfg exchange symbol notional s
  unfolding check_order
  check_order-inside stray other cfg exchange symbol notional s h =
      rw (find_symbol-inside stray other symbol s h) refl

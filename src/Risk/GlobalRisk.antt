-- ===== src/Risk/GlobalRisk.antt =====
-- core/risk/global_risk_controls.hpp over an abstract `double`, with one call at a time. A null symbol is
-- the empty string. The loops over the symbol table run to `next_slot`, which can pass the end of the
-- table: `stray` is what a read there finds. The log is left out.
pub mod Futures
pub mod Caps
pub mod Runs
pub mod Refusals
pub mod Table
use trading_infrastructure_c.Common.{
  ℕ, zero, suc, ◌+◌, ◌*◌, ◌%◌, Bool, true, false, not, ◌&&◌, ◌||◌, Option, none, some, List, [],
  ◌∷◌, ltb, leb, if◌then◌else◌, get_or, set, replicate, u64_mod,
}
use trading_infrastructure_c.Common.Float.{Float}
use trading_infrastructure_c.Connectors.OrderMap.{Exchange}
use trading_infrastructure_c.Portfolio.PositionLedger.{same_symbol, copy_symbol}
use trading_infrastructure_c.Risk.KillSwitch.{KillSwitch, KillReason, trigger}

pub data GlobalRiskCheckResult : Type 0 where
  pass invalid_input gross_notional_cap net_notional_cap concentration_cap venue_cap
        cross_venue_netting_cap futures_leverage_cap futures_maintenance_margin_cap
        futures_mark_index_divergence_cap futures_funding_cost_cap :
      GlobalRiskCheckResult

abbrev pub max_symbols : ℕ
max_symbols = 32

abbrev pub num_venues : ℕ
num_venues = 4

abbrev pub venue_index : Exchange → Option ℕ
venue_index Exchange.binance = some 0
venue_index Exchange.okx = some 1
venue_index Exchange.coinbase = some 2
venue_index Exchange.kraken = some 3
venue_index Exchange.unknown = none

abbrev pub is_empty : List ℕ → Bool
is_empty [] = true
is_empty (c ∷ cs) = false

module _ (F : Float) where
  open F use {double, literal, is_finite}
  open F.double use {Carrier, zero as nought, lt, equal, add, sub, mul, div, abs}

  pub record GlobalRiskConfig : Type 0 where
    pub max_gross_notional : Carrier
    pub max_net_notional : Carrier
    pub max_symbol_concentration : Carrier
    pub max_venue_notional : Carrier
    pub max_cross_venue_net_notional : Carrier
    pub kill_on_breach : Bool

  pub record SymbolState : Type 0 where
    pub active : Bool
    pub symbol : List ℕ
    pub gross_notional : Carrier
    pub net_notional : Carrier

  pub record GlobalRiskControls : Type 0 where
    pub gross_notional : Carrier
    pub net_notional : Carrier
    pub venue_gross_notional : List Carrier
    pub symbol_states : List SymbolState
    pub next_slot : ℕ
    pub kill_switch : KillSwitch

  abbrev pub blank_symbol : SymbolState
  blank_symbol = record {
    active = false;
    symbol = [];
    gross_notional = nought;
    net_notional = nought;
  }

  unfoldable pub init : KillSwitch → GlobalRiskControls
  init k = record {
    gross_notional = nought;
    net_notional = nought;
    venue_gross_notional = replicate num_venues nought;
    symbol_states = replicate max_symbols blank_symbol;
    next_slot = 0;
    kill_switch = k;
  }

  abbrev pub exceeds : Carrier → Carrier → Bool
  exceeds cap value = lt nought cap && lt cap value

  abbrev pub slot_at : (ℕ → SymbolState) → List SymbolState → ℕ → SymbolState
  slot_at stray slots i = get_or slots i (stray i)

  -- The loop over `n` slots from `i` on.
  unfoldable pub find_slot : (ℕ → SymbolState) → List ℕ → List SymbolState → ℕ → ℕ → Option ℕ
  find_slot stray symbol slots zero i = none
  find_slot stray symbol slots (suc n) i =
      let rest = find_slot stray symbol slots n (suc i) in
      let slot = slot_at stray slots i in
      if slot.active && same_symbol slot.symbol symbol then some i else rest

  unfoldable pub find_symbol : (ℕ → SymbolState) → List ℕ → GlobalRiskControls → Option ℕ
  unfolding find_slot
  find_symbol stray symbol s = find_slot stray symbol s.symbol_states s.next_slot 0

  abbrev pub found_slot : (ℕ → SymbolState) → Option ℕ → GlobalRiskControls → SymbolState
  found_slot stray none s = blank_symbol
  found_slot stray (some i) s = slot_at stray s.symbol_states i

  -- The checks of an order on its symbol, whose state is `found`, those on its venue and all of them.
  unfoldable pub check_symbol :
      GlobalRiskConfig → Carrier → SymbolState → GlobalRiskControls → GlobalRiskCheckResult
  check_symbol cfg notional found s =
      let gross_after = add s.gross_notional (abs notional) in
      let symbol_gross_after = add found.gross_notional (abs notional) in
      let symbol_net_after = add found.net_notional notional in
      if lt nought cfg.max_symbol_concentration
        && lt nought (sub s.gross_notional found.gross_notional)
        && lt nought gross_after
        && lt cfg.max_symbol_concentration (div symbol_gross_after gross_after)
      then concentration_cap
      else if lt nought cfg.max_cross_venue_net_notional
          && lt nought found.gross_notional
          && lt cfg.max_cross_venue_net_notional (abs symbol_net_after)
      then cross_venue_netting_cap
      else pass

  unfoldable pub check_venue :
      GlobalRiskConfig
      → Carrier
      → Option ℕ
      → SymbolState
      → GlobalRiskControls
      → GlobalRiskCheckResult
  unfolding check_symbol
  check_venue cfg notional none found s = invalid_input
  check_venue cfg notional (some v) found s =
      if exceeds cfg.max_venue_notional
        (add (get_or s.venue_gross_notional v nought) (abs notional))
      then venue_cap
      else check_symbol cfg notional found s

  unfoldable pub check_order :
      (ℕ → SymbolState)
      → GlobalRiskConfig
      → Exchange
      → List ℕ
      → Carrier
      → GlobalRiskControls
      → GlobalRiskCheckResult
  unfolding check_venue find_symbol
  check_order stray cfg exchange symbol notional s =
      if is_empty symbol || not (is_finite notional) || equal notional nought
      then invalid_input
      else if exceeds cfg.max_gross_notional (add s.gross_notional (abs notional))
      then gross_notional_cap
      else if exceeds cfg.max_net_notional (abs (add s.net_notional notional))
      then net_notional_cap
      else check_venue cfg notional (venue_index exchange)
          (found_slot stray (find_symbol stray symbol s) s) s

  unfoldable pub create_symbol : List ℕ → GlobalRiskControls → Option ℕ × GlobalRiskControls
  create_symbol symbol s =
      let taken = record s { next_slot = (s.next_slot + 1) % u64_mod } in
      let fresh = get_or s.symbol_states s.next_slot blank_symbol in
      if leb max_symbols s.next_slot then (none, taken) else (
        some s.next_slot,
        record taken {
          symbol_states =
              set s.symbol_states s.next_slot
                (record fresh { symbol = copy_symbol symbol; active = true });
        },
      )

  unfoldable pub choose_symbol :
      List ℕ → Option ℕ → GlobalRiskControls → Option ℕ × GlobalRiskControls
  unfolding create_symbol
  choose_symbol symbol (some i) s = (some i, s)
  choose_symbol symbol none s = create_symbol symbol s

  unfoldable pub get_or_create_symbol :
      (ℕ → SymbolState) → List ℕ → GlobalRiskControls → Option ℕ × GlobalRiskControls
  unfolding choose_symbol find_symbol
  get_or_create_symbol stray symbol s = choose_symbol symbol (find_symbol stray symbol s) s

  abbrev pub add_at : List Carrier → Option ℕ → Carrier → List Carrier
  add_at xs none x = xs
  add_at xs (some i) x = set xs i (add (get_or xs i nought) x)

  -- The five sums of a committed order.
  unfoldable pub book_order :
      (ℕ → SymbolState)
      → Exchange
      → Carrier
      → Option ℕ × GlobalRiskControls
      → GlobalRiskCheckResult × GlobalRiskControls
  book_order stray exchange notional (none, s) = (invalid_input, s)
  book_order stray exchange notional (some i, s) =
      let slot = slot_at stray s.symbol_states i in
      (
        pass,
        record s {
          gross_notional = add s.gross_notional (abs notional);
          net_notional = add s.net_notional notional;
          venue_gross_notional =
              add_at s.venue_gross_notional (venue_index exchange) (abs notional);
          symbol_states = set s.symbol_states i (record slot {
            gross_notional = add slot.gross_notional (abs notional);
            net_notional = add slot.net_notional notional;
          });
        },
      )

  unfoldable pub refuse :
      GlobalRiskConfig
      → GlobalRiskCheckResult
      → GlobalRiskControls
      → GlobalRiskCheckResult × GlobalRiskControls
  unfolding trigger
  refuse cfg r s = (
    r,
    record s {
      kill_switch =
          if cfg.kill_on_breach
          then trigger KillReason.circuit_breaker s.kill_switch
          else s.kill_switch;
    },
  )

  unfoldable pub commit_checked :
      (ℕ → SymbolState)
      → GlobalRiskConfig
      → Exchange
      → List ℕ
      → Carrier
      → GlobalRiskCheckResult
      → GlobalRiskControls
      → GlobalRiskCheckResult × GlobalRiskControls
  unfolding book_order get_or_create_symbol refuse
  commit_checked stray cfg exchange symbol notional pass s =
      book_order stray exchange notional (get_or_create_symbol stray symbol s)
  commit_checked stray cfg exchange symbol notional r s = refuse cfg r s

  unfoldable pub commit_order :
      (ℕ → SymbolState)
      → GlobalRiskConfig
      → Exchange
      → List ℕ
      → Carrier
      → GlobalRiskControls
      → GlobalRiskCheckResult × GlobalRiskControls
  unfolding commit_checked check_order
  commit_order stray cfg exchange symbol notional s =
      commit_checked stray cfg exchange symbol notional
        (check_order stray cfg exchange symbol notional s) s

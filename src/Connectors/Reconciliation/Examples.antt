-- ===== src/Connectors/Reconciliation/Examples.antt =====
-- The theorems on the reconciliation service on concrete venues, over whole numbers for `double`.
use trading_infrastructure_c.Common.{◌≡◌, refl, ℕ, true, false, List, [], ◌∷◌, ◌++◌, none, arith}
use trading_infrastructure_c.Common.Int.{pos}
use trading_infrastructure_c.Common.Whole.{whole_float}
use trading_infrastructure_c.Portfolio.PositionLedger.{same_bytes}
use trading_infrastructure_c.Connectors.OrderMap.{Exchange}
use trading_infrastructure_c.Connectors.LiveConnector.{ok}
use trading_infrastructure_c.Connectors.Reconciliation.{
  DriftDecision, no_mismatch, no_action, info, ReconciledFill, Venue, Trail, Setup, blank_venue,
}
use trading_infrastructure_c.Connectors.Reconciliation.Fills.{build_fill_ledger, is_duplicate}
use trading_infrastructure_c.Connectors.Reconciliation.Cycle.{Replies, run_reconciliation_cycle}
use trading_infrastructure_c.Connectors.Reconciliation.FillLaws.{
  kept_from, build_fill_ledger-replay,
}
use trading_infrastructure_c.Connectors.Reconciliation.Budgets.{fill_gaps, fill_gaps-quarantine}
use trading_infrastructure_c.Connectors.Reconciliation.Quarantine.{
  venue_at, run_cycles, run_cycles-quarantined,
}
use trading_infrastructure_c.Connectors.Reconciliation.Settling
use trading_infrastructure_c.Connectors.Reconciliation.Settling.{
  IsSettled, run_reconciliation_cycle-IsSettled,
}

abbrev zeroed : DriftDecision
zeroed = record {
  is_mismatch = false;
  mismatch_class = no_mismatch;
  action = no_action;
  severity = info;
  retry_count = 0;
  quarantine = false;
}

abbrev fill : ℕ → ℕ → ReconciledFill whole_float
fill trade n = record {
  client_order_id = 0;
  venue_order_id = [];
  venue_trade_id = trade ∷ [];
  exchange = Exchange.okx;
  quantity = pos n;
  price = pos 3;
  notional = pos 0;
  fee = pos 0;
  exchange_ts_ns = 0;
}

abbrev fills : List (ReconciledFill whole_float)
fills = fill 65 4 ∷ fill 66 5 ∷ []

build_fill_ledger-replay_example :
    build_fill_ledger whole_float (fills ++ (fill 66 5 ∷ fill 65 4 ∷ []))
    ≡ build_fill_ledger whole_float fills
unfolding kept_from is_duplicate same_bytes
build_fill_ledger-replay_example =
    build_fill_ledger-replay whole_float fills (fill 66 5 ∷ fill 65 4 ∷ []) (refl, (refl, tt))

abbrev setup : Setup whole_float
setup = record {
  thresholds = record {
    max_balance_drift = pos 1;
    max_position_drift = pos 1;
    max_order_fill_gap = pos 1;
    max_fill_notional_drift = pos 1;
    max_fill_fee_drift = pos 1;
  };
  policy = record {
    order_drift_retry_budget = 2;
    fill_gap_retry_budget = 2;
    snapshot_failure_retry_budget = 2;
  };
  has_cancel_all_hook = true;
  has_risk_halt_hook = true;
  has_position_ledger = true;
}

abbrev trail : Trail whole_float
trail = record { incident_trail = []; dropped_incident_count = 0; calls = [] }

abbrev okx : Venue whole_float
okx = record (blank_venue whole_float) { exchange = Exchange.okx }

-- The third gap is over the budget of two.
fill_gaps-quarantine_example :
    (fill_gaps whole_float zeroed setup 10 false 3 (okx, trail)).0.quarantined ≡ true
fill_gaps-quarantine_example =
    fill_gaps-quarantine whole_float zeroed setup 10 false 3 okx trail refl (omega arith) refl refl

abbrev answer : Replies whole_float
answer = record {
  local_result = ok;
  fetch_result = ok;
  snapshot = record { open_orders = []; fills = fills; balances = []; positions = [] };
  canonical = none;
  now_ns = 10;
}

abbrev venues : List (Venue whole_float)
venues =
    record (blank_venue whole_float) { exchange = Exchange.binance; quarantined = true } ∷ okx ∷ []

run_cycles-quarantined_example :
    venue_at whole_float
      (run_cycles whole_float zeroed setup
        ((true, λ i. answer) ∷ (false, λ i. answer) ∷ [])
        (venues, trail)).0
      0
    ≡ venue_at whole_float venues 0
run_cycles-quarantined_example =
    run_cycles-quarantined whole_float zeroed setup
      ((true, λ i. answer) ∷ (false, λ i. answer) ∷ []) venues trail 0 refl

cycle_ok :
    Settling.is_ok
      (run_reconciliation_cycle whole_float zeroed setup false (λ i. answer) 0 venues trail).0
    ≡ true
unfolding run_reconciliation_cycle
cycle_ok = refl

run_reconciliation_cycle-IsSettled_example : IsSettled whole_float answer (
    venue_at whole_float
      (run_reconciliation_cycle whole_float zeroed setup false (λ i. answer) 0 venues trail).1
      1)
run_reconciliation_cycle-IsSettled_example =
    run_reconciliation_cycle-IsSettled whole_float zeroed setup false (λ i. answer) venues trail 1
      cycle_ok (omega arith) refl

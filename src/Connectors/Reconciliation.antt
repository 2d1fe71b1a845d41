-- ===== src/Connectors/Reconciliation.antt =====
-- core/execution/common/reconciliation: the types, the registration and the state of the reconciliation
-- service, over an abstract `double`. The parallel arrays of the source, of which the first
-- `connector_count_` entries are in use, are one list of venues. A venue's connector stands by its
-- identity; hooks and calls of the position ledger are recorded in order. Reasons, which are text for
-- the log, and the fields of reports that the service does not read are left out.
pub mod Fills
pub mod Drift
pub mod Decisions
pub mod Cycle
pub mod FillLaws
pub mod Budgets
pub mod Quarantine
pub mod Settling
mod Examples
use trading_infrastructure_c.Common.{
  ℕ, ◌+◌, Bool, true, false, ◌&&◌, Option, none, some, List, [], ◌∷◌, ◌++◌, length, ltb, leb, ◌==◌,
  if◌then◌else◌, get_or, set,
}
use trading_infrastructure_c.Common.Slots.{find_index}
use trading_infrastructure_c.Common.Int.{ℤ}
use trading_infrastructure_c.Common.Float.{Float}
use trading_infrastructure_c.Connectors.OrderMap.{Exchange}
use trading_infrastructure_c.Portfolio.PositionLedger.{same_exchange}

pub data MismatchClass : Type 0 where
  no_mismatch missing_order qty_drift fill_gap balance_drift position_drift : MismatchClass

pub data DriftAction : Type 0 where
  no_action quarantine_venue request_fill_replay risk_halt_recommended cancel_all_orders :
      DriftAction

pub data SeverityLevel : Type 0 where
  info warning critical : SeverityLevel

pub record RemediationPolicy : Type 0 where
  pub order_drift_retry_budget : ℕ
  pub fill_gap_retry_budget : ℕ
  pub snapshot_failure_retry_budget : ℕ

pub record DriftDecision : Type 0 where
  pub is_mismatch : Bool
  pub mismatch_class : MismatchClass
  pub action : DriftAction
  pub severity : SeverityLevel
  pub retry_count : ℕ
  pub quarantine : Bool

pub record ReconciliationIncident : Type 0 where
  pub ts_ns : ℕ
  pub exchange : Exchange
  pub mismatch_class : MismatchClass
  pub action : DriftAction
  pub severity : SeverityLevel
  pub reconnect_phase : Bool
  pub retry_count : ℕ

abbrev pub max_connectors : ℕ
max_connectors = 4

abbrev pub max_incident_trail : ℕ
max_incident_trail = 256

module _ (F : Float) where
  open F use {double}
  open F.double use {Carrier}

  pub record ReconciledOrder : Type 0 where
    pub client_order_id : ℕ
    pub venue_order_id : List ℕ
    pub quantity : Carrier
    pub filled_quantity : Carrier

  pub record ReconciledFill : Type 0 where
    pub client_order_id : ℕ
    pub venue_order_id : List ℕ
    pub venue_trade_id : List ℕ
    pub exchange : Exchange
    pub quantity : Carrier
    pub price : Carrier
    pub notional : Carrier
    pub fee : Carrier
    pub exchange_ts_ns : ℕ

  pub record ReconciledBalance : Type 0 where
    pub asset : List ℕ
    pub total : Carrier
    pub available : Carrier

  pub record ReconciledPosition : Type 0 where
    pub symbol : List ℕ
    pub position_side : List ℕ
    pub quantity : Carrier
    pub avg_entry_price : Carrier
    pub leverage : Carrier

  pub record ReconciliationSnapshot : Type 0 where
    pub open_orders : List ReconciledOrder
    pub fills : List ReconciledFill
    pub balances : List ReconciledBalance
    pub positions : List ReconciledPosition

  pub record DriftThresholds : Type 0 where
    pub max_balance_drift : Carrier
    pub max_position_drift : Carrier
    pub max_order_fill_gap : Carrier
    pub max_fill_notional_drift : Carrier
    pub max_fill_fee_drift : Carrier

  -- VenueState with the entries of the other arrays at the same index.
  pub record Venue : Type 0 where
    pub connector : ℕ
    pub exchange : Exchange
    pub quarantined : Bool
    pub last_reconcile_ts_ns : ℕ
    pub last_drift_check_ts_ns : ℕ
    pub mismatch_count : ℕ
    pub order_drift_retries : ℕ
    pub fill_gap_retries : ℕ
    pub snapshot_failure_retries : ℕ
    pub fill_replay_requests : ℕ
    pub last_mismatch : MismatchClass
    pub last_action : DriftAction
    pub last_severity : SeverityLevel
    pub reconnect_required : Bool
    pub canonical_snapshot : Option ReconciliationSnapshot
    pub latest_snapshot : Option ReconciliationSnapshot
    pub has_canonical_fetcher : Bool

  pub data Call : Type 0 where
    cancel_all_hook : Exchange → MismatchClass → Call
    risk_halt_hook : Exchange → MismatchClass → Call
    reconcile_positions : Exchange → List ReconciledPosition → Call

  pub record Trail : Type 0 where
    pub incident_trail : List ReconciliationIncident
    pub dropped_incident_count : ℕ
    pub calls : List Call

  -- What the service was built and bound with.
  pub record Setup : Type 0 where
    pub thresholds : DriftThresholds
    pub policy : RemediationPolicy
    pub has_cancel_all_hook : Bool
    pub has_risk_halt_hook : Bool
    pub has_position_ledger : Bool

  abbrev pub blank_venue : Venue
  blank_venue = record {
    connector = 0;
    exchange = Exchange.binance;
    quarantined = false;
    last_reconcile_ts_ns = 0;
    last_drift_check_ts_ns = 0;
    mismatch_count = 0;
    order_drift_retries = 0;
    fill_gap_retries = 0;
    snapshot_failure_retries = 0;
    fill_replay_requests = 0;
    last_mismatch = no_mismatch;
    last_action = no_action;
    last_severity = info;
    reconnect_required = false;
    canonical_snapshot = none;
    latest_snapshot = none;
    has_canonical_fetcher = false;
  }

  abbrev has_connector : ℕ → List Venue → Bool
  has_connector c [] = false
  has_connector c (v ∷ vs) =
      let rest = has_connector c vs in if v.connector == c then true else rest

  unfoldable pub register_connector : ℕ → Exchange → List Venue → Bool × List Venue
  register_connector c exchange vs =
      if has_connector c vs
      then (true, vs)
      else if leb max_connectors (length vs)
      then (false, vs)
      else (true, vs ++ (record blank_venue { connector = c; exchange = exchange } ∷ []))

  unfoldable pub index_for : Exchange → List Venue → Option ℕ
  index_for exchange vs = find_index (λ v. same_exchange v.exchange exchange) vs

  abbrev change_venue : (Venue → Venue) → Option ℕ → List Venue → Bool × List Venue
  change_venue f none vs = (false, vs)
  change_venue f (some i) vs = (true, set vs i (f (get_or vs i blank_venue)))

  pub set_canonical_snapshot : Exchange → ReconciliationSnapshot → List Venue → Bool × List Venue
  unfolding index_for
  set_canonical_snapshot exchange s vs =
      change_venue (λ v. record v { canonical_snapshot = some s }) (index_for exchange vs) vs

  pub set_canonical_snapshot_fetcher : Exchange → List Venue → Bool × List Venue
  unfolding index_for
  set_canonical_snapshot_fetcher exchange vs =
      change_venue (λ v. record v { has_canonical_fetcher = true }) (index_for exchange vs) vs

  pub mark_reconnect_required : Exchange → List Venue → Bool × List Venue
  unfolding index_for
  mark_reconnect_required exchange vs =
      change_venue (λ v. record v { reconnect_required = true }) (index_for exchange vs) vs

  abbrev venue_of : Option ℕ → List Venue → Venue
  venue_of none vs = blank_venue
  venue_of (some i) vs = get_or vs i blank_venue

  pub is_quarantined : Exchange → List Venue → Bool
  unfolding index_for
  is_quarantined exchange vs = (venue_of (index_for exchange vs) vs).quarantined

  pub latest_snapshot_for : Exchange → List Venue → Option ReconciliationSnapshot
  unfolding index_for
  latest_snapshot_for exchange vs = (venue_of (index_for exchange vs) vs).latest_snapshot

-- ===== src/Connectors/Reconciliation/Decisions.antt =====
-- What the reconciliation service does on a decision: retry budgets, incidents, hooks and quarantine.
use trading_infrastructure_c.Common.{
  ℕ, ◌+◌, Bool, true, false, ◌&&◌, ◌||◌, [], ◌∷◌, ◌++◌, length, ltb, leb, u32, if◌then◌else◌,
}
use trading_infrastructure_c.Common.Float.{Float}
use trading_infrastructure_c.Connectors.LiveConnector.{ConnectorResult, auth_failed}
use trading_infrastructure_c.Connectors.Reconciliation.{
  MismatchClass, no_mismatch, missing_order, qty_drift, fill_gap, DriftAction, quarantine_venue,
  risk_halt_recommended, cancel_all_orders, warning, critical, DriftDecision, RemediationPolicy,
  Venue, Trail, Setup, cancel_all_hook, risk_halt_hook, max_incident_trail,
}

abbrev pub is_auth_failed : ConnectorResult → Bool
is_auth_failed auth_failed = true
is_auth_failed _ = false

abbrev pub is_cancel_all : DriftAction → Bool
is_cancel_all cancel_all_orders = true
is_cancel_all _ = false

abbrev pub is_risk_halt : DriftAction → Bool
is_risk_halt risk_halt_recommended = true
is_risk_halt _ = false

abbrev pub is_quarantine_venue : DriftAction → Bool
is_quarantine_venue quarantine_venue = true
is_quarantine_venue _ = false

-- The verdict on a drift that has used up its retries.
abbrev pub halt : DriftDecision → DriftDecision
halt d = record d {
  mismatch_class = no_mismatch;
  action = risk_halt_recommended;
  severity = critical;
  quarantine = true;
}

module _ (F : Float) where
  unfoldable pub classify_snapshot_failure :
      DriftDecision → RemediationPolicy → ConnectorResult → Venue F → DriftDecision × Venue F
  classify_snapshot_failure raw policy r v =
      let retries = u32 (v.snapshot_failure_retries + 1) in
      let failed = record v { snapshot_failure_retries = retries } in
      let out = record raw { is_mismatch = true; retry_count = retries } in
      if is_auth_failed r || ltb policy.snapshot_failure_retry_budget retries
      then (
        record out { action = quarantine_venue; severity = critical; quarantine = true },
        failed,
      )
      else (record out { action = cancel_all_orders; severity = warning }, failed)

  unfoldable pub spend_order_retry :
      RemediationPolicy → DriftDecision → Venue F → DriftDecision × Venue F
  spend_order_retry policy d v =
      let retries = u32 (v.order_drift_retries + 1) in
      let spent = record v { order_drift_retries = retries } in
      let counted = record d { retry_count = retries } in
      if ltb policy.order_drift_retry_budget retries
      then (halt counted, spent)
      else (counted, spent)

  unfoldable pub spend_fill_retry :
      RemediationPolicy → DriftDecision → Venue F → DriftDecision × Venue F
  spend_fill_retry policy d v =
      let retries = u32 (v.fill_gap_retries + 1) in
      let spent = record v { fill_gap_retries = retries } in
      let counted = record d { retry_count = retries } in
      if ltb policy.fill_gap_retry_budget retries
      then (halt counted, spent)
      else (counted, record spent { fill_replay_requests = u32 (v.fill_replay_requests + 1) })

  unfoldable pub spend_retry :
      RemediationPolicy → MismatchClass → DriftDecision → Venue F → DriftDecision × Venue F
  unfolding spend_fill_retry spend_order_retry
  spend_retry policy fill_gap d v = spend_fill_retry policy d v
  spend_retry policy missing_order d v = spend_order_retry policy d v
  spend_retry policy qty_drift d v = spend_order_retry policy d v
  spend_retry policy _ d v = (d, v)

  unfoldable pub record_incident : ℕ → Bool → DriftDecision → Venue F → Trail F → Trail F
  record_incident now reconnect_phase d v t =
      if leb max_incident_trail (length t.incident_trail)
      then record t { dropped_incident_count = u32 (t.dropped_incident_count + 1) }
      else record t {
        incident_trail =
            t.incident_trail
            ++ (record {
              ts_ns = now;
              exchange = v.exchange;
              mismatch_class = d.mismatch_class;
              action = d.action;
              severity = d.severity;
              reconnect_phase = reconnect_phase;
              retry_count = d.retry_count;
            }
                ∷ []);
      }

  unfoldable pub fire_hook : Setup F → DriftDecision → Venue F → Trail F → Trail F
  fire_hook setup d v t =
      if is_cancel_all d.action && setup.has_cancel_all_hook
      then record t { calls = t.calls ++ (cancel_all_hook v.exchange d.mismatch_class ∷ []) }
      else if is_risk_halt d.action && setup.has_risk_halt_hook
      then record t { calls = t.calls ++ (risk_halt_hook v.exchange d.mismatch_class ∷ []) }
      else t

  unfoldable pub mark_venue : DriftDecision → Venue F → Venue F
  mark_venue d v =
      let marked = record v {
        last_mismatch = d.mismatch_class;
        last_action = d.action;
        last_severity = d.severity;
      } in
      if d.quarantine || is_quarantine_venue d.action || is_risk_halt d.action
      then record marked { quarantined = true; mismatch_count = u32 (v.mismatch_count + 1) }
      else marked

  unfoldable pub settle_decision :
      Setup F → ℕ → Bool → DriftDecision × Venue F → Trail F → Venue F × Trail F
  unfolding record_incident fire_hook mark_venue
  settle_decision setup now reconnect_phase (d, v) t =
      (mark_venue d v, fire_hook setup d v (record_incident now reconnect_phase d v t))

  unfoldable pub apply_decision :
      Setup F → ℕ → Bool → DriftDecision → Venue F → Trail F → Venue F × Trail F
  unfolding settle_decision spend_retry
  apply_decision setup now reconnect_phase d v t =
      settle_decision setup now reconnect_phase (spend_retry setup.policy d.mismatch_class d v) t

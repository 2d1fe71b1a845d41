-- ===== src/Connectors/Reconciliation/Cycle.antt =====
-- One cycle of the reconciliation service over its venues.
use trading_infrastructure_c.Common.{
  ℕ, suc, Bool, true, false, ◌&&◌, Option, none, some, List, [], ◌∷◌, ◌++◌, if◌then◌else◌,
}
use trading_infrastructure_c.Common.Float.{Float}
use trading_infrastructure_c.Connectors.LiveConnector.{ConnectorResult, ok, error_unknown}
use trading_infrastructure_c.Connectors.Reconciliation.{
  no_mismatch, no_action, quarantine_venue, info, critical, DriftDecision, ReconciliationSnapshot,
  Venue, Trail, Setup, reconcile_positions,
}
use trading_infrastructure_c.Connectors.Reconciliation.Drift.{
  mismatch, evaluate_snapshot_sanity, evaluate_drift,
}
use trading_infrastructure_c.Connectors.Reconciliation.Decisions.{
  classify_snapshot_failure, apply_decision,
}

module _ (F : Float) where
  -- What a venue's connector, its canonical fetcher and the clock answer in one cycle. `canonical` is
  -- `none` where the fetcher fails.
  pub record Replies : Type 0 where
    pub local_result : ConnectorResult
    pub fetch_result : ConnectorResult
    pub snapshot : ReconciliationSnapshot F
    pub canonical : Option (ReconciliationSnapshot F)
    pub now_ns : ℕ

  abbrev pub Outcome : Type 0
  Outcome = ConnectorResult × Venue F × Trail F

  unfoldable pub snapshot_failed :
      DriftDecision → Setup F → Bool → ℕ → ConnectorResult → Venue F → Trail F → Outcome
  unfolding classify_snapshot_failure apply_decision
  snapshot_failed raw setup phase now r v t =
      let (d, counted) = classify_snapshot_failure F raw setup.policy r v in
      let (marked, trail) = apply_decision F setup now phase d counted t in (r, marked, trail)

  unfoldable pub settle_venue :
      Setup F → Bool → ℕ → ReconciliationSnapshot F → Venue F → Trail F → Outcome
  settle_venue setup phase now s v t =
      let checked = record v {
        last_reconcile_ts_ns = if phase then now else v.last_reconcile_ts_ns;
        mismatch_count = if phase then 0 else v.mismatch_count;
        last_drift_check_ts_ns = if phase then v.last_drift_check_ts_ns else now;
        last_mismatch = no_mismatch;
        last_action = no_action;
        last_severity = info;
        order_drift_retries = 0;
        fill_gap_retries = 0;
      } in
      let called = record t {
        calls = t.calls ++ (reconcile_positions v.exchange s.positions ∷ []);
      } in
      (ok, checked, if setup.has_position_ledger then called else t)

  unfoldable pub on_drift : Setup F → Bool → ℕ → DriftDecision → Venue F → Trail F → Outcome
  unfolding apply_decision
  on_drift setup phase now d v t =
      let (marked, trail) = apply_decision F setup now phase d v t in (error_unknown, marked, trail)

  unfoldable pub judge :
      Setup F → Bool → ℕ → ReconciliationSnapshot F → DriftDecision → Venue F → Trail F → Outcome
  unfolding settle_venue on_drift
  judge setup phase now s d v t =
      if d.is_mismatch then on_drift setup phase now d v t else settle_venue setup phase now s v t

  abbrev pub evaluate :
      DriftDecision
      → Setup F
      → ReconciliationSnapshot F
      → Option (ReconciliationSnapshot F)
      → DriftDecision
  evaluate raw setup s none = evaluate_snapshot_sanity F raw setup.thresholds s
  evaluate raw setup s (some c) = evaluate_drift F raw setup.thresholds s c

  -- A fetcher's answer, where a fetcher is set.
  unfoldable pub with_canonical :
      DriftDecision
      → Setup F
      → Bool
      → ℕ
      → ReconciliationSnapshot F
      → Option (ReconciliationSnapshot F)
      → Venue F
      → Trail F
      → Outcome
  unfolding judge on_drift evaluate_drift
  with_canonical raw setup phase now s none v t =
      on_drift setup phase now (mismatch raw no_mismatch quarantine_venue critical true) v t
  with_canonical raw setup phase now s (some c) v t =
      judge setup phase now s (evaluate_drift F raw setup.thresholds s c) v t

  unfoldable pub on_snapshot :
      DriftDecision → Setup F → Bool → Replies → Venue F → Trail F → Outcome
  unfolding judge with_canonical evaluate_snapshot_sanity
  on_snapshot raw setup phase a v t =
      let seen = record v { latest_snapshot = some a.snapshot; snapshot_failure_retries = 0 } in
      if v.has_canonical_fetcher
      then with_canonical raw setup phase a.now_ns a.snapshot a.canonical seen t
      else judge setup phase a.now_ns a.snapshot
          (evaluate raw setup a.snapshot v.canonical_snapshot) seen t

  unfoldable pub on_fetch :
      DriftDecision → Setup F → Bool → Replies → ConnectorResult → Venue F → Trail F → Outcome
  unfolding on_snapshot snapshot_failed
  on_fetch raw setup phase a ok v t = on_snapshot raw setup phase a v t
  on_fetch raw setup phase a r v t = snapshot_failed raw setup phase a.now_ns r v t

  unfoldable pub on_local :
      DriftDecision → Setup F → Bool → Replies → ConnectorResult → Venue F → Trail F → Outcome
  unfolding on_fetch snapshot_failed
  on_local raw setup phase a ok v t = on_fetch raw setup phase a a.fetch_result v t
  on_local raw setup phase a r v t = snapshot_failed raw setup phase a.now_ns r v t

  -- The body of the loop. `ok` lets it go on to the next venue.
  unfoldable pub reconcile_venue :
      DriftDecision → Setup F → Bool → Replies → Venue F → Trail F → Outcome
  unfolding on_local on_fetch
  reconcile_venue raw setup phase a v t =
      if v.quarantined
      then (ok, v, t)
      else if phase && v.reconnect_required
      then on_local raw setup phase a a.local_result (record v { reconnect_required = false }) t
      else on_fetch raw setup phase a a.fetch_result v t

  -- The rest of the cycle, which a failure ends.
  unfoldable pub go_on :
      List (Venue F)
      → Outcome
      → (Trail F → ConnectorResult × List (Venue F) × Trail F)
      → ConnectorResult × List (Venue F) × Trail F
  go_on vs (ok, v, t) rest = let (r, others, trail) = rest t in (r, v ∷ others, trail)
  go_on vs (r, v, t) rest = (r, v ∷ vs, t)

  unfoldable pub run_reconciliation_cycle :
      DriftDecision
      → Setup F
      → Bool
      → (ℕ → Replies)
      → ℕ
      → List (Venue F)
      → Trail F
      → ConnectorResult × List (Venue F) × Trail F
  unfolding go_on reconcile_venue
  run_reconciliation_cycle raw setup phase answers i [] t = (ok, [], t)
  run_reconciliation_cycle raw setup phase answers i (v ∷ vs) t =
      go_on vs (reconcile_venue raw setup phase (answers i) v t)
        (run_reconciliation_cycle raw setup phase answers (suc i) vs)

  pub reconcile_on_reconnect :
      DriftDecision
      → Setup F
      → (ℕ → Replies)
      → List (Venue F)
      → Trail F
      → ConnectorResult × List (Venue F) × Trail F
  unfolding run_reconciliation_cycle
  reconcile_on_reconnect raw setup answers vs t =
      run_reconciliation_cycle raw setup true answers 0 vs t

  pub run_periodic_drift_check :
      DriftDecision
      → Setup F
      → (ℕ → Replies)
      → List (Venue F)
      → Trail F
      → ConnectorResult × List (Venue F) × Trail F
  unfolding run_reconciliation_cycle
  run_periodic_drift_check raw setup answers vs t =
      run_reconciliation_cycle raw setup false answers 0 vs t

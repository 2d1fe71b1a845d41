-- ===== src/Connectors/Reconciliation/Settling.antt =====
-- What it means that a cycle of the reconciliation service returns OK.
use trading_infrastructure_c.Common.{
  ◌≡◌, refl, inl, inr, ℕ, zero, suc, ◌+◌, ◌<◌, Bool, true, false, ◌&&◌, Option, none, some, List,
  [], ◌∷◌, length, arith, Bool-cases, if◌then◌else◌,
}
use mathlib.Core.Path.{subst}
use trading_infrastructure_c.Common.Float.{Float}
use trading_infrastructure_c.Connectors.LiveConnector.{ConnectorResult, ok}
use trading_infrastructure_c.Connectors.Reconciliation.{
  DriftDecision, Venue, Trail, Setup, ReconciliationSnapshot,
}
use trading_infrastructure_c.Connectors.Reconciliation.Drift.{evaluate_drift}
use trading_infrastructure_c.Connectors.Reconciliation.Cycle.{
  Replies, Outcome, judge, on_drift, settle_venue, with_canonical, on_snapshot, evaluate, on_fetch,
  on_local, snapshot_failed, reconcile_venue, go_on, run_reconciliation_cycle,
}
use trading_infrastructure_c.Connectors.Reconciliation.Quarantine.{venue_at}

add_zero : (i : ℕ) → i + 0 ≡ i
add_zero i = omega arith

add_suc : (i k : ℕ) → i + suc k ≡ suc i + k
add_suc i k = omega arith

zero_add : (k : ℕ) → 0 + k ≡ k
zero_add k = omega arith

abbrev pub is_ok : ConnectorResult → Bool
is_ok ok = true
is_ok _ = false

module _ (F : Float) where
  -- A venue whose snapshot was taken and found without drift.
  abbrev pub IsSettled : Replies F → Venue F → Type 0
  IsSettled a v =
      (v.quarantined ≡ false)
      × (v.latest_snapshot ≡ some a.snapshot)
      × (v.snapshot_failure_retries ≡ 0)
      × (v.order_drift_retries ≡ 0)
      × (v.fill_gap_retries ≡ 0)

  abbrev Settles : Replies F → Outcome F → Type 0
  Settles a o = is_ok o.0 ≡ true → IsSettled a o.1

  choose-Settles :
      (a : Replies F) (c : Bool) (x y : Outcome F)
      → (c ≡ true → Settles a x)
      → (c ≡ false → Settles a y)
      → Settles a (if c then x else y)
  choose-Settles a true x y hx hy = hx refl
  choose-Settles a false x y hx hy = hy refl

  judge-Settles :
      (setup : Setup F) (phase : Bool) (a : Replies F) (d : DriftDecision) (v : Venue F)
      (t : Trail F)
      → v.quarantined ≡ false
      → v.latest_snapshot ≡ some a.snapshot
      → v.snapshot_failure_retries ≡ 0
      → Settles a (judge F setup phase a.now_ns a.snapshot d v t)
  unfolding judge on_drift settle_venue
  judge-Settles setup phase a d v t free latest failures = elim (Bool-cases d.is_mismatch) [
    | inl e ↦ rw e (λ h. ground (arith, h))
    | inr e ↦ rw e (λ _. (free, latest, failures, refl, refl))
  ]

  with_canonical-Settles :
      (raw : DriftDecision) (setup : Setup F) (phase : Bool) (a : Replies F)
      (c : Option (ReconciliationSnapshot F)) (v : Venue F) (t : Trail F)
      → v.quarantined ≡ false
      → v.latest_snapshot ≡ some a.snapshot
      → v.snapshot_failure_retries ≡ 0
      → Settles a (with_canonical F raw setup phase a.now_ns a.snapshot c v t)
  unfolding with_canonical on_drift
  with_canonical-Settles raw setup phase a none v t free latest failures = λ h. ground (arith, h)
  with_canonical-Settles raw setup phase a (some c) v t free latest failures =
      judge-Settles setup phase a (evaluate_drift F raw setup.thresholds a.snapshot c) v t free
        latest failures

  on_snapshot-Settles :
      (raw : DriftDecision) (setup : Setup F) (phase : Bool) (a : Replies F) (v : Venue F)
      (t : Trail F)
      → v.quarantined ≡ false
      → Settles a (on_snapshot F raw setup phase a v t)
  unfolding on_snapshot
  on_snapshot-Settles raw setup phase a v t free =
      let seen = record v { latest_snapshot = some a.snapshot; snapshot_failure_retries = 0 } in
      choose-Settles a v.has_canonical_fetcher _ _
        (λ _. with_canonical-Settles raw setup phase a a.canonical seen t free refl refl)
        (λ _.
          judge-Settles setup phase a (evaluate F raw setup a.snapshot v.canonical_snapshot) seen t
            free refl refl)

  on_fetch-Settles :
      (raw : DriftDecision) (setup : Setup F) (phase : Bool) (a : Replies F) (r : ConnectorResult)
      (v : Venue F) (t : Trail F)
      → v.quarantined ≡ false
      → Settles a (on_fetch F raw setup phase a r v t)
  unfolding on_fetch snapshot_failed
  on_fetch-Settles raw setup phase a ok v t free = on_snapshot-Settles raw setup phase a v t free
  on_fetch-Settles raw setup phase a r v t free = λ h. ground (arith, h)

  on_local-Settles :
      (raw : DriftDecision) (setup : Setup F) (phase : Bool) (a : Replies F) (r : ConnectorResult)
      (v : Venue F) (t : Trail F)
      → v.quarantined ≡ false
      → Settles a (on_local F raw setup phase a r v t)
  unfolding on_local snapshot_failed
  on_local-Settles raw setup phase a ok v t free =
      on_fetch-Settles raw setup phase a a.fetch_result v t free
  on_local-Settles raw setup phase a r v t free = λ h. ground (arith, h)

  reconcile_venue-Settles :
      (raw : DriftDecision) (setup : Setup F) (phase : Bool) (a : Replies F) (v : Venue F)
      (t : Trail F)
      → v.quarantined ≡ false
      → Settles a (reconcile_venue F raw setup phase a v t)
  unfolding reconcile_venue
  reconcile_venue-Settles raw setup phase a v t free =
      choose-Settles a v.quarantined _ _ (λ e. ground (arith, e, free))
        (λ _.
          choose-Settles a (phase && v.reconnect_required) _ _
            (λ _.
              on_local-Settles raw setup phase a a.local_result
                (record v { reconnect_required = false }) t free)
            (λ _. on_fetch-Settles raw setup phase a a.fetch_result v t free))

  go_on-ok :
      (vs : List (Venue F)) (o : Outcome F)
      (rest : Trail F → ConnectorResult × List (Venue F) × Trail F)
      → is_ok (go_on F vs o rest).0 ≡ true
      → (is_ok o.0 ≡ true)
        × (is_ok (rest o.2).0 ≡ true)
        × ((go_on F vs o rest).1 ≡ o.1 ∷ (rest o.2).1)
  unfolding go_on
  go_on-ok vs (ok, v, t) rest h = (refl, h, refl)
  go_on-ok vs (r, v, t) rest h = ground (arith, h)

  IsSettled-by_cycle :
      (raw : DriftDecision) (setup : Setup F) (phase : Bool) (answers : ℕ → Replies F) (i : ℕ)
      (vs : List (Venue F)) (t : Trail F) (k : ℕ)
      → is_ok (run_reconciliation_cycle F raw setup phase answers i vs t).0 ≡ true
      → k < length vs
      → (venue_at F vs k).quarantined ≡ false
      → IsSettled
          (answers (i + k))
          (venue_at F (run_reconciliation_cycle F raw setup phase answers i vs t).1 k)
  unfolding run_reconciliation_cycle
  IsSettled-by_cycle raw setup phase answers i [] t k h low free = ground arith
  IsSettled-by_cycle raw setup phase answers i (v ∷ vs) t zero h low free =
      let o = reconcile_venue F raw setup phase (answers i) v t in
      let (here, later, list) =
        go_on-ok vs o (run_reconciliation_cycle F raw setup phase answers (suc i) vs) h in
      rw (list, add_zero i) (reconcile_venue-Settles raw setup phase (answers i) v t free here)
  IsSettled-by_cycle raw setup phase answers i (v ∷ vs) t (suc k) h low free =
      let o = reconcile_venue F raw setup phase (answers i) v t in
      let (here, later, list) =
        go_on-ok vs o (run_reconciliation_cycle F raw setup phase answers (suc i) vs) h in
      rw (list, add_suc i k)
        (IsSettled-by_cycle raw setup phase answers (suc i) vs o.2 k later (omega (arith, low))
          free)

  -- If a cycle returns OK, then every venue that was not quarantined when it began is free of quarantine
  -- after it, holds the snapshot that its connector answered in this cycle as its latest, and has no
  -- retries left counted against it: none was passed over. `raw` stands in what a DriftDecision is not set
  -- to.
  pub run_reconciliation_cycle-IsSettled :
      (raw : DriftDecision) (setup : Setup F) (phase : Bool) (answers : ℕ → Replies F)
      (vs : List (Venue F)) (t : Trail F) (k : ℕ)
      → is_ok (run_reconciliation_cycle F raw setup phase answers 0 vs t).0 ≡ true
      → k < length vs
      → (venue_at F vs k).quarantined ≡ false
      → IsSettled
          (answers k)
          (venue_at F (run_reconciliation_cycle F raw setup phase answers 0 vs t).1 k)
  run_reconciliation_cycle-IsSettled raw setup phase answers vs t k h low free =
      subst
        (λ n.
          IsSettled (answers n)
            (venue_at F (run_reconciliation_cycle F raw setup phase answers 0 vs t).1 k))
        (zero_add k) (IsSettled-by_cycle raw setup phase answers 0 vs t k h low free)

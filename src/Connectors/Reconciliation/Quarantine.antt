-- ===== src/Connectors/Reconciliation/Quarantine.antt =====
-- What a cycle of the reconciliation service leaves of a quarantined venue.
use trading_infrastructure_c.Common.{
  ◌≡◌, refl, ◌∙◌, ℕ, zero, suc, Bool, true, List, [], ◌∷◌, get_or,
}
use trading_infrastructure_c.Common.Float.{Float}
use trading_infrastructure_c.Connectors.LiveConnector.{ConnectorResult, ok}
use trading_infrastructure_c.Connectors.Reconciliation.{
  DriftDecision, Venue, Trail, Setup, blank_venue,
}
use trading_infrastructure_c.Connectors.Reconciliation.Cycle.{
  Replies, Outcome, reconcile_venue, go_on, run_reconciliation_cycle,
}

module _ (F : Float) where
  abbrev pub venue_at : List (Venue F) → ℕ → Venue F
  venue_at vs k = get_or vs k (blank_venue F)

  go_on-tail :
      (vs : List (Venue F)) (o : Outcome F)
      (rest : Trail F → ConnectorResult × List (Venue F) × Trail F) (k : ℕ)
      → ((t : Trail F) → venue_at (rest t).1 k ≡ venue_at vs k)
      → venue_at (go_on F vs o rest).1 (suc k) ≡ venue_at vs k
  unfolding go_on
  go_on-tail vs (ok, v, t) rest k h = h t
  go_on-tail vs (r, v, t) rest k h = refl

  go_on-head :
      (vs : List (Venue F)) (o : Outcome F)
      (rest : Trail F → ConnectorResult × List (Venue F) × Trail F)
      → venue_at (go_on F vs o rest).1 zero ≡ o.1
  unfolding go_on
  go_on-head vs (ok, v, t) rest = refl
  go_on-head vs (r, v, t) rest = refl

  kept_by_cycle :
      (raw : DriftDecision) (setup : Setup F) (phase : Bool) (answers : ℕ → Replies F) (i : ℕ)
      (vs : List (Venue F)) (t : Trail F) (k : ℕ)
      → (venue_at vs k).quarantined ≡ true
      → venue_at (run_reconciliation_cycle F raw setup phase answers i vs t).1 k ≡ venue_at vs k
  unfolding run_reconciliation_cycle reconcile_venue
  kept_by_cycle raw setup phase answers i [] t k h = refl
  kept_by_cycle raw setup phase answers i (v ∷ vs) t zero h =
      go_on-head vs (reconcile_venue F raw setup phase (answers i) v t)
        (run_reconciliation_cycle F raw setup phase answers (suc i) vs)
      ∙ rw h refl
  kept_by_cycle raw setup phase answers i (v ∷ vs) t (suc k) h =
      go_on-tail vs (reconcile_venue F raw setup phase (answers i) v t)
        (run_reconciliation_cycle F raw setup phase answers (suc i) vs) k
        (λ t'. kept_by_cycle raw setup phase answers (suc i) vs t' k h)

  -- Cycles one after the other: whether each is on reconnect, and what its venues answer.
  unfoldable pub run_cycles :
      DriftDecision
      → Setup F
      → List (Bool × (ℕ → Replies F))
      → List (Venue F) × Trail F
      → List (Venue F) × Trail F
  unfolding run_reconciliation_cycle
  run_cycles raw setup [] (vs, t) = (vs, t)
  run_cycles raw setup ((phase, answers) ∷ cycles) (vs, t) =
      let (_, vs', t') = run_reconciliation_cycle F raw setup phase answers 0 vs t in
      run_cycles raw setup cycles (vs', t')

  -- Over every run of cycles, on reconnect and periodic, and whatever the venues answer, a venue that is
  -- quarantined stays so, and nothing of its state changes.
  pub run_cycles-quarantined :
      (raw : DriftDecision) (setup : Setup F) (cycles : List (Bool × (ℕ → Replies F)))
      (vs : List (Venue F)) (t : Trail F) (k : ℕ)
      → (venue_at vs k).quarantined ≡ true
      → venue_at (run_cycles raw setup cycles (vs, t)).0 k ≡ venue_at vs k
  unfolding run_cycles
  run_cycles-quarantined raw setup [] vs t k h = refl
  run_cycles-quarantined raw setup ((phase, answers) ∷ cycles) vs t k h =
      let after = run_reconciliation_cycle F raw setup phase answers 0 vs t in
      let same = kept_by_cycle raw setup phase answers 0 vs t k h in
      run_cycles-quarantined raw setup cycles after.1 after.2 k (rw same h) ∙ same

-- ===== src/Connectors/Reconciliation/Budgets.antt =====
-- Retry budgets of the reconciliation service.
use trading_infrastructure_c.Common.{
  ◌≡◌, refl, inl, inr, ℕ, zero, suc, ◌+◌, ◌<◌, Bool, false, ltb, u32, u32_mod, arith, Bool-cases,
}
use trading_infrastructure_c.Common.Float.{Float}
use trading_infrastructure_c.Connectors.Reconciliation.{DriftDecision, Venue, Trail, Setup}
use trading_infrastructure_c.Connectors.Reconciliation.Drift.{classify_fill_gap}
use trading_infrastructure_c.Connectors.Reconciliation.Decisions.{
  spend_fill_retry, spend_retry, mark_venue, settle_decision, apply_decision,
}

next : (n : ℕ) → suc n < u32_mod → u32 (n + 1) ≡ suc n
next n h = ground arith

still : (budget n : ℕ) → ltb budget (suc n) ≡ false → ltb budget n ≡ false
still budget n h = ground arith

module _ (F : Float) where
  -- `n` fill gaps in a row at one venue.
  unfoldable pub fill_gaps :
      DriftDecision → Setup F → ℕ → Bool → ℕ → Venue F × Trail F → Venue F × Trail F
  unfolding apply_decision classify_fill_gap
  fill_gaps raw setup now phase zero (v, t) = (v, t)
  fill_gaps raw setup now phase (suc n) (v, t) =
      let (v', t') = fill_gaps raw setup now phase n (v, t) in
      apply_decision F setup now phase (classify_fill_gap raw) v' t'

  one_gap :
      (raw : DriftDecision) (setup : Setup F) (now : ℕ) (phase : Bool) (n : ℕ) (v : Venue F)
      (t : Trail F)
      → raw.quarantine ≡ false
      → suc n < u32_mod
      → v.fill_gap_retries ≡ n
      → v.quarantined ≡ ltb setup.policy.fill_gap_retry_budget n
      → ((apply_decision F setup now phase (classify_fill_gap raw) v t).0.fill_gap_retries ≡ suc n)
        × ((apply_decision F setup now phase (classify_fill_gap raw) v t).0.quarantined
            ≡ ltb setup.policy.fill_gap_retry_budget (suc n))
  unfolding apply_decision settle_decision mark_venue spend_retry spend_fill_retry classify_fill_gap
  one_gap raw setup now phase n v t calm small retries quarantined =
      elim (Bool-cases (ltb setup.policy.fill_gap_retry_budget (suc n))) [
        | inl e ↦ rw (retries, next n small, e) (refl, refl)
        | inr e ↦
            rw (retries, next n small, e, calm)
              (refl, rw (quarantined, still setup.policy.fill_gap_retry_budget n e) refl)
      ]

  gaps_counted :
      (raw : DriftDecision) (setup : Setup F) (now : ℕ) (phase : Bool) (n : ℕ) (v : Venue F)
      (t : Trail F)
      → raw.quarantine ≡ false
      → n < u32_mod
      → v.fill_gap_retries ≡ 0
      → v.quarantined ≡ false
      → ((fill_gaps raw setup now phase n (v, t)).0.fill_gap_retries ≡ n)
        × ((fill_gaps raw setup now phase n (v, t)).0.quarantined
            ≡ ltb setup.policy.fill_gap_retry_budget n)
  unfolding fill_gaps
  gaps_counted raw setup now phase zero v t calm small retries quarantined =
      (retries, rw quarantined (ground arith))
  gaps_counted raw setup now phase (suc n) v t calm small retries quarantined =
      let (counted, state) =
        gaps_counted raw setup now phase n v t calm (omega (arith, small)) retries quarantined in
      one_gap raw setup now phase n (fill_gaps raw setup now phase n (v, t)).0
        (fill_gaps raw setup now phase n (v, t)).1 calm small counted state

  -- Where the storage of a new DriftDecision happens to hold no quarantine flag: `n` fill gaps in a row, for
  -- fewer than 2^32, at a venue that had none and is not quarantined, leave it quarantined exactly if `n` is
  -- more than the budget of fill-gap retries.
  pub fill_gaps-quarantine :
      (raw : DriftDecision) (setup : Setup F) (now : ℕ) (phase : Bool) (n : ℕ) (v : Venue F)
      (t : Trail F)
      → raw.quarantine ≡ false
      → n < u32_mod
      → v.fill_gap_retries ≡ 0
      → v.quarantined ≡ false
      → (fill_gaps raw setup now phase n (v, t)).0.quarantined
        ≡ ltb setup.policy.fill_gap_retry_budget n
  fill_gaps-quarantine raw setup now phase n v t calm small retries quarantined =
      (gaps_counted raw setup now phase n v t calm small retries quarantined).1

-- ===== src/Connectors/Reconciliation/FillLaws.antt =====
-- What the ledger of a snapshot's fills counts, and that it never runs out of keys.
use trading_infrastructure_c.Common.{
  ◌≡◌, refl, inl, inr, ℕ, suc, ◌+◌, ◌≤◌, Bool, true, false, List, [], ◌∷◌, ◌++◌, leb, if◌then◌else◌,
  length, length-append, All, arith, Bool-cases,
}
use mathlib.Core.Path.{subst}
use trading_infrastructure_c.Common.Float.{Float}
use trading_infrastructure_c.Connectors.Reconciliation.{ReconciledFill}
use trading_infrastructure_c.Connectors.Reconciliation.Fills.{
  max_fill_keys, FillLedger, empty_ledger, is_duplicate, count_fill, build_from, build_fill_ledger,
}

room : (k n : ℕ) → k + suc n ≤ max_fill_keys → leb max_fill_keys k ≡ false
room k n h = ground arith

module _ (F : Float) where
  -- The fills that the loop keeps as keys.
  unfoldable pub kept_from :
      List (ReconciledFill F) → List (ReconciledFill F) → List (ReconciledFill F)
  kept_from [] keys = keys
  kept_from (f ∷ fs) keys =
      let skipped = kept_from fs keys in
      let counted = kept_from fs (keys ++ (f ∷ [])) in
      if is_duplicate F f keys then skipped else counted

  kept_skip :
      (x : ReconciledFill F) (xs keys : List (ReconciledFill F))
      → is_duplicate F x keys ≡ true
      → kept_from (x ∷ xs) keys ≡ kept_from xs keys
  unfolding kept_from
  kept_skip x xs keys e = rw e refl

  kept_count :
      (x : ReconciledFill F) (xs keys : List (ReconciledFill F))
      → is_duplicate F x keys ≡ false
      → kept_from (x ∷ xs) keys ≡ kept_from xs (keys ++ (x ∷ []))
  unfolding kept_from
  kept_count x xs keys e = rw e refl

  repeats :
      (ys keys : List (ReconciledFill F)) (l : FillLedger F)
      → All (λ y. is_duplicate F y keys ≡ true) ys
      → build_from F ys keys l ≡ (true, l)
  unfolding build_from
  repeats [] keys l h = refl
  repeats (y ∷ ys) keys l (here, later) = rw here (repeats ys keys l later)

  build_from-replay :
      (xs ys keys : List (ReconciledFill F)) (l : FillLedger F)
      → All (λ y. is_duplicate F y (kept_from xs keys) ≡ true) ys
      → build_from F (xs ++ ys) keys l ≡ build_from F xs keys l
  unfolding build_from kept_from
  build_from-replay [] ys keys l h = repeats ys keys l h
  build_from-replay (x ∷ xs) ys keys l h = elim (Bool-cases (is_duplicate F x keys)) [
    | inl e ↦ rw e (
        build_from-replay xs ys keys l
          (subst (λ ks. All (λ y. is_duplicate F y ks ≡ true) ys) (kept_skip x xs keys e) h))
    | inr e ↦
        let same =
          build_from-replay xs ys (keys ++ (x ∷ [])) (count_fill F x l)
            (subst (λ ks. All (λ y. is_duplicate F y ks ≡ true) ys) (kept_count x xs keys e) h) in
        rw (e, same) refl
  ]

  -- For every snapshot's fills and every further ones that each repeat a fill the ledger has counted, by
  -- fill_same_identity, the ledger of them all is the ledger of the first: a replay is counted once.
  pub build_fill_ledger-replay :
      (xs ys : List (ReconciledFill F))
      → All (λ y. is_duplicate F y (kept_from xs []) ≡ true) ys
      → build_fill_ledger F (xs ++ ys) ≡ build_fill_ledger F xs
  unfolding build_fill_ledger
  build_fill_ledger-replay xs ys h = build_from-replay xs ys [] (empty_ledger F) h

  -- What the ledger says of `n` fills beside those in `l`.
  abbrev Counts : ℕ → FillLedger F → Bool × FillLedger F → Type 0
  Counts n l r =
      (r.0 ≡ true)
      × (r.1.overflow ≡ l.overflow)
      × (l.unique_fill_count ≤ r.1.unique_fill_count)
      × (r.1.unique_fill_count ≤ l.unique_fill_count + n)

  build_from-Counts :
      (fs keys : List (ReconciledFill F)) (l : FillLedger F)
      → length keys + length fs ≤ max_fill_keys
      → Counts (length fs) l (build_from F fs keys l)
  unfolding build_from count_fill
  build_from-Counts [] keys l h = (refl, refl, omega arith, omega arith)
  build_from-Counts (f ∷ fs) keys l h = elim (Bool-cases (is_duplicate F f keys)) [
    | inl e ↦
        let (whole, same, more, less) = build_from-Counts fs keys l (omega (arith, h)) in
        rw e (whole, same, more, omega (arith, less))
    | inr e ↦
        let (whole, same, more, less) =
          build_from-Counts fs (keys ++ (f ∷ [])) (count_fill F f l)
            (omega (arith, h, length-append keys (f ∷ []))) in
        rw (e, room (length keys) (length fs) h)
          (whole, same, omega (arith, more), omega (arith, less))
  ]

  -- For every list of at most MAX_FILL_KEYS fills, so for every snapshot, whose table has 512, the ledger is
  -- built whole, its overflow branch is not reached, and it counts no more fills than there are.
  pub build_fill_ledger-fits :
      (fs : List (ReconciledFill F))
      → length fs ≤ max_fill_keys
      → ((build_fill_ledger F fs).0 ≡ true)
        × ((build_fill_ledger F fs).1.overflow ≡ false)
        × ((build_fill_ledger F fs).1.unique_fill_count ≤ length fs)
  unfolding build_fill_ledger
  build_fill_ledger-fits fs h =
      let (whole, same, _, less) = build_from-Counts fs [] (empty_ledger F) (omega (arith, h)) in
      (whole, same, omega (arith, less))

-- ===== src/Ipc/SignalReader/Gates.antt =====
-- What a read returns, and when the gates of the alpha signal let every order pass.
use trading_infrastructure_c.Common.{
  ℕ, ◌%◌, ◌<◌, ◌≡◌, refl, inl, inr, ◌⊎◌, true, false, not, Option, none, some, arith, Bool-cases,
  pick, both_ways, negated,
}
use trading_infrastructure_c.Common.Int.{ℤ}
use trading_infrastructure_c.Common.Float.{Float}
use trading_infrastructure_c.Ipc.SignalReader.{
  Round, max_retries, alpha_round, retry, AlphaSignal, AlphaSignalReader, no_alpha, alpha_of,
  decoded, read, is_stale, allows_long, allows_short, allows_mm,
}
use trading_infrastructure_c.Ipc.SignalReader.Seqlock.{IsRun, IsDisturbed, JudgedAll, retry-Judged}

module _ (F : Float) (double_of : ℕ → F.double.Carrier) (int64_of : ℕ → ℤ) where
  abbrev signal : (ℕ → ℕ) → AlphaSignal F double_of int64_of
  signal = alpha_of F double_of int64_of

  same_signal : (v w : ℕ → ℕ) → ((i : ℕ) → i < 5 → v i ≡ w i) → signal v ≡ signal w
  same_signal v w h = rw (
    h 0 (omega arith),
    h 1 (omega arith),
    h 2 (omega arith),
    h 3 (omega arith),
    h 4 (omega arith),
  )

  -- `s` is the signal of a moment at which no write was under way, or the default one after 16 rounds that
  -- each met a write.
  abbrev pub IsRead : (ℕ → Round) → AlphaSignal F double_of int64_of → Type 0
  IsRead rounds s =
      ((j : ℕ) × (j < max_retries)
        × ((rounds j).at_seq1.seq % 2 ≡ 0)
        × (s ≡ signal (rounds j).at_seq1.words))
      ⊎ ((s ≡ no_alpha F double_of int64_of) × ((j : ℕ) → j < max_retries → IsDisturbed (rounds j)))

  decoded-IsRead :
      (rounds : ℕ → Round) (o : Option (ℕ → ℕ))
      → JudgedAll rounds 0 max_retries o
      → IsRead rounds (decoded F double_of int64_of o)
  decoded-IsRead rounds none h = inr (refl, λ j l. h j (omega arith) (omega arith))
  decoded-IsRead rounds (some w) (j, l, m, k) = inl (j, omega arith, k.0, same_signal w _ k.1)

  -- Let the writer run at the same time, by its protocol, in any order with the loads of the reader. Then
  -- what a mapped reader returns is one whole signal, that of a moment at which no write was under way;
  -- or it is the default signal, and then a write was under way or came in between in all 16 rounds.
  pub read-IsRead :
      (rounds : ℕ → Round) (r : AlphaSignalReader F double_of int64_of)
      → r.mapped ≡ true
      → ((j : ℕ) → IsRun (rounds j))
      → IsRead rounds (read F double_of int64_of rounds r)
  unfolding read
  read-IsRead rounds r m h =
      pick (IsRead rounds) (not r.mapped) _ _ (λ e. absurd (both_ways m (negated _ e)))
        (λ _. decoded-IsRead rounds _ (retry-Judged rounds 0 max_retries h))

  -- If the file is not mapped, or all 16 rounds meet a write, then the three gates let every order pass.
  pub gates_fail_open :
      (now : ℤ) (rounds : ℕ → Round) (r : AlphaSignalReader F double_of int64_of)
      → (r.mapped ≡ false) ⊎ (retry alpha_round rounds 0 max_retries ≡ none)
      → ((allows_long F double_of int64_of now rounds r).0 ≡ true)
        × ((allows_short F double_of int64_of now rounds r).0 ≡ true)
        × (allows_mm F double_of int64_of now rounds r ≡ true)
  unfolding allows_long allows_short allows_mm read is_stale
  gates_fail_open now rounds r (inl e) = rw e (refl, refl, refl)
  gates_fail_open now rounds r (inr e) = elim (Bool-cases r.mapped) [
    | inl m ↦ rw (m, e) (refl, refl, refl)
    | inr m ↦ rw m (refl, refl, refl)
  ]

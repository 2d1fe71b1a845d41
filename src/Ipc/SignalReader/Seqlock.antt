-- ===== src/Ipc/SignalReader/Seqlock.antt =====
-- The protocol of the writer, and that a reader never returns a mixture of two signals.
use mathlib.Core.Path.{subst}
use trading_infrastructure_c.Common.{
  ℕ, zero, suc, ◌+◌, ◌%◌, ◌≤◌, ◌<◌, ◌≡◌, ◌≢◌, refl, sym, ap, inl, inr, ◌⊎◌, Option, none, some,
  update, ◌==◌, arith, Bool-cases, pick,
}
use trading_infrastructure_c.Ipc.SignalReader.{
  Memory, Round, is_odd, loads, alpha_round, regime_round, retry,
}

-- The number is made odd, words are stored while it is odd, and it is made even again.
pub data Step (m : Memory) (n : Memory) : Type 0 where
  begin : m.seq % 2 ≡ 0 → n ≡ record m { seq = m.seq + 1 } → Step m n
  store : (k v : ℕ) → m.seq % 2 ≡ 1 → n ≡ record m { words = update m.words k v } → Step m n
  commit : m.seq % 2 ≡ 1 → n ≡ record m { seq = m.seq + 1 } → Step m n

pub data Reach (m : Memory) : Memory → Type 0 where
  here : Reach m m
  next : {n o : Memory} → Reach m n → Step n o → Reach m o

seq_of : Memory → ℕ
seq_of m = m.seq

Step-seq : (m n : Memory) → Step m n → m.seq ≤ n.seq
Step-seq m n (begin e s) = ground (arith, s)
Step-seq m n (store k v e s) = ground (arith, s)
Step-seq m n (commit e s) = ground (arith, s)

Reach-seq : {m n : Memory} → Reach m n → m.seq ≤ n.seq
Reach-seq here = omega arith
Reach-seq (next r s) = omega (arith, Reach-seq r, Step-seq _ _ s)

-- No step leaves an even number as it is.
Step_even : (m n : Memory) → m.seq % 2 ≡ 0 → Step m n → m.seq < n.seq
Step_even m n h (begin e s) = ground (arith, s)
Step_even m n h (store k v e s) = absurd (omega arith)
Step_even m n h (commit e s) = absurd (omega arith)

-- Memory whose number is even and the same again is the same.
pub Reach_same : {m n : Memory} → m.seq % 2 ≡ 0 → m.seq ≡ n.seq → Reach m n → m ≡ n
Reach_same h e here = refl
Reach_same {m} {n} h e (next {n = k} r s) =
    let p = Reach-seq r in
    let q = Step-seq k n s in absurd (omega (arith, Step_even k n (omega arith) s))

-- Each word is loaded after the number is for the first time, and before it is for the second.
abbrev pub IsRun : Round → Type 0
IsRun r = (i : ℕ) → i < 5 → Reach r.at_seq1 (r.at_word i) × Reach (r.at_word i) r.at_seq2

abbrev pub IsDisturbed : Round → Type 0
IsDisturbed r = (r.at_seq1.seq % 2 ≡ 1) ⊎ (r.at_seq1.seq ≢ r.at_seq2.seq)

-- The words are those of one memory whose number is even.
abbrev pub IsWhole : Round → (ℕ → ℕ) → Type 0
IsWhole r w = (r.at_seq1.seq % 2 ≡ 0) × ((i : ℕ) → i < 5 → w i ≡ r.at_seq1.words i)

loads-same :
    (r : Round)
    → IsRun r
    → r.at_seq1.seq % 2 ≡ 0
    → r.at_seq1.seq ≡ r.at_seq2.seq
    → (i : ℕ) → i < 5
    → loads r i ≡ r.at_seq1.words i
loads-same r h e s i l =
    let (before, after) = h i l in
    let p = Reach-seq before in
    let q = Reach-seq after in
    let same = Reach_same e (omega arith) before in ap (λ (m : Memory). m.words i) (sym same)

abbrev Judged : Round → Option (ℕ → ℕ) → Type 0
Judged r none = IsDisturbed r
Judged r (some w) = IsWhole r w

alpha_round-Judged : (r : Round) → IsRun r → Judged r (alpha_round r)
alpha_round-Judged r h =
    pick (Judged r) (is_odd r.at_seq1.seq) _ _ (λ e. inl (ground arith))
      (λ e.
        let even : r.at_seq1.seq % 2 ≡ 0 = ground arith in
        pick (Judged r) (r.at_seq1.seq == r.at_seq2.seq) _ _
          (λ s.
            let same : r.at_seq1.seq ≡ r.at_seq2.seq = ground arith in
            (even, loads-same r h even same))
          (λ n. inr (λ s. ground arith)))

-- The second test of the number that `RegimeSignalReader` makes changes nothing.
pub regime_round-alpha_round : (r : Round) → regime_round r ≡ alpha_round r
regime_round-alpha_round r = ground arith

abbrev pub JudgedAll : (ℕ → Round) → ℕ → ℕ → Option (ℕ → ℕ) → Type 0
JudgedAll rounds i n none = (j : ℕ) → i ≤ j → j < i + n → IsDisturbed (rounds j)
JudgedAll rounds i n (some w) = (j : ℕ) × (i ≤ j) × (j < i + n) × IsWhole (rounds j) w

pub retry-Judged :
    (rounds : ℕ → Round) (i n : ℕ)
    → ((j : ℕ) → IsRun (rounds j))
    → JudgedAll rounds i n (retry alpha_round rounds i n)
unfolding retry
retry-Judged rounds i zero h = λ j l m. absurd (omega arith)
retry-Judged rounds i (suc n) h =
    first (alpha_round (rounds i)) (alpha_round-Judged (rounds i) (h i)) _
      (retry-Judged rounds (suc i) n h)
  where
    first :
        (o : Option (ℕ → ℕ))
        → Judged (rounds i) o
        → (rest : Option (ℕ → ℕ)) → JudgedAll rounds (suc i) n rest
        → JudgedAll rounds i (suc n) (elim o [ some w ↦ some w | none ↦ rest ])
    first (some w) d rest k = (i, omega arith, omega arith, d)
    first none d (some w) (j, l, m, k) = (j, omega arith, omega arith, k)
    first none d none k = λ j l m. elim (Bool-cases (j == i)) [
      | inl e ↦ let same : i ≡ j = ground arith in subst (λ t. IsDisturbed (rounds t)) same d
      | inr e ↦ k j (ground arith) (omega arith)
    ]

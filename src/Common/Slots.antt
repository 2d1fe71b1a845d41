-- ===== src/Common/Slots.antt =====
-- Searching a fixed array for the first slot that passes a test, as the pools and maps of the source
-- do, and what a write to one slot does to such a search.
use Prim.Native.Nat.{ℕ, zero, suc, ◌<◌}
use mathlib.Core.Path.{◌≡◌, refl, ap, ◌∙◌}
use mathlib.Core.Logic.{◌≢◌, inl, inr}
use mathlib.Core.Bool.{Bool, true, false}
use mathlib.Core.Option.{Option, none, some}
use mathlib.Core.List.{List, [], ◌∷◌, map}
use native.Mathlib.Omega.{arith}
use trading_infrastructure_c.Common.Tests.{if◌then◌else◌, Bool-cases}
use trading_infrastructure_c.Common.Lists.{length, get_or, replicate, set, All}

abbrev next_slot : Option ℕ → Option ℕ
next_slot none = none
next_slot (some i) = some (suc i)

next_slot-some :
    (o : Option ℕ) (i : ℕ) → next_slot o ≡ some i → (j : ℕ) × (o ≡ some j) × (i ≡ suc j)
next_slot-some none i h = cc
next_slot-some (some j) i h = (j, refl, ground arith)

next_slot_none : (o : Option ℕ) → next_slot o ≡ none → o ≡ none
next_slot_none none h = refl
next_slot_none (some j) h = cc

module _ {A : Type 0} where
  unfoldable pub find_index : (A → Bool) → List A → Option ℕ
  find_index p [] = none
  find_index p (x ∷ xs) = if p x then some 0 else next_slot (find_index p xs)

  -- The slot found passes the test.
  pub find_index-passes :
      (p : A → Bool) (xs : List A) (i : ℕ) (d : A)
      → find_index p xs ≡ some i
      → (p (get_or xs i d) ≡ true) × (i < length xs)
  unfolding find_index
  find_index-passes p [] i d h = cc
  find_index-passes p (x ∷ xs) i d h = elim (Bool-cases (p x)) [
    | inl here ↦ let z : i ≡ 0 = ground arith in rw z (here, omega arith)
    | inr there ↦
        let (j, f, s) = next_slot-some (find_index p xs) i (rw there at h) in
        let (passes, below) = find_index-passes p xs j d f in rw s (passes, omega arith)
  ]

  pub get_or-replicate : (n i : ℕ) (x : A) → get_or (replicate n x) i x ≡ x
  get_or-replicate zero i x = refl
  get_or-replicate (suc n) zero x = refl
  get_or-replicate (suc n) (suc i) x = get_or-replicate n i x

  pub get_or-set : (xs : List A) (i : ℕ) (x d : A) → i < length xs → get_or (set xs i x) i d ≡ x
  get_or-set [] i x d h = absurd (omega arith)
  get_or-set (y ∷ xs) zero x d h = refl
  get_or-set (y ∷ xs) (suc i) x d h = get_or-set xs i x d (omega arith)

  pub get_or-set_other :
      (xs : List A) (i k : ℕ) (x d : A) → i ≢ k → get_or (set xs i x) k d ≡ get_or xs k d
  get_or-set_other [] i k x d h = refl
  get_or-set_other (y ∷ xs) zero zero x d h = absurd (h refl)
  get_or-set_other (y ∷ xs) zero (suc k) x d h = refl
  get_or-set_other (y ∷ xs) (suc i) zero x d h = refl
  get_or-set_other (y ∷ xs) (suc i) (suc k) x d h = get_or-set_other xs i k x d (λ e. h (ap suc e))

  pub set_comm :
      (xs : List A) (i k : ℕ) (x y : A) → i ≢ k → set (set xs i x) k y ≡ set (set xs k y) i x
  set_comm [] i k x y h = refl
  set_comm (z ∷ xs) zero zero x y h = absurd (h refl)
  set_comm (z ∷ xs) zero (suc k) x y h = refl
  set_comm (z ∷ xs) (suc i) zero x y h = refl
  set_comm (z ∷ xs) (suc i) (suc k) x y h = ap (◌∷◌ z) (set_comm xs i k x y (λ e. h (ap suc e)))

  -- A write to a slot that fails the test before and after changes no search.
  pub find_index-set_other :
      (p : A → Bool) (xs : List A) (i : ℕ) (x d : A)
      → p (get_or xs i d) ≡ false
      → p x ≡ false
      → find_index p (set xs i x) ≡ find_index p xs
  unfolding find_index
  find_index-set_other p [] i x d h n = refl
  find_index-set_other p (y ∷ xs) zero x d h n = rw (h, n)
  find_index-set_other p (y ∷ xs) (suc i) x d h n =
      ground (arith, find_index-set_other p xs i x d h n)

  -- A write of a passing value to the slot found, or to any slot where none was found, is found.
  pub find_index-set_found :
      (p : A → Bool) (xs : List A) (i : ℕ) (x : A)
      → find_index p xs ≡ some i
      → p x ≡ true
      → find_index p (set xs i x) ≡ some i
  unfolding find_index
  find_index-set_found p [] i x h t = cc
  find_index-set_found p (y ∷ xs) zero x h t = rw t
  find_index-set_found p (y ∷ xs) (suc i) x h t = elim (Bool-cases (p y)) [
    | inl here ↦ let e = rw here at h in absurd (zero_suc i e)
    | inr there ↦
        let (j, f, s) = next_slot-some (find_index p xs) (suc i) (rw there at h) in
        let same : j ≡ i = omega arith in
        rw (there, find_index-set_found p xs i x (f ∙ ap some same) t)
  ]
    where
      zero_suc : (i : ℕ) → some 0 ≡ some (suc i) → ⊥
      zero_suc i e = ground arith

  pub find_index-set_new :
      (p : A → Bool) (xs : List A) (i : ℕ) (x : A)
      → find_index p xs ≡ none
      → i < length xs
      → p x ≡ true
      → find_index p (set xs i x) ≡ some i
  unfolding find_index
  find_index-set_new p [] i x h l t = absurd (omega arith)
  find_index-set_new p (y ∷ xs) zero x h l t = rw t
  find_index-set_new p (y ∷ xs) (suc i) x h l t = elim (Bool-cases (p y)) [
    | inl here ↦ let e = rw here at h in cc
    | inr there ↦
        let n = next_slot_none (find_index p xs) (rw there at h) in
        rw (there, find_index-set_new p xs i x n (omega arith) t)
  ]

  -- None is found exactly if every slot fails the test.
  pub find_index-none :
      (p : A → Bool) (xs : List A) → find_index p xs ≡ none → All (λ x. p x ≡ false) xs
  unfolding find_index
  find_index-none p [] h = tt
  find_index-none p (x ∷ xs) h = elim (Bool-cases (p x)) [
    | inl here ↦ let e = rw here at h in cc
    | inr there ↦ (there, find_index-none p xs (next_slot_none (find_index p xs) (rw there at h)))
  ]

  pub All-get_or :
      (P : A → Type 0) (xs : List A) (i : ℕ) (d : A) → All P xs → i < length xs → P (get_or xs i d)
  All-get_or P [] i d h l = absurd (omega arith)
  All-get_or P (x ∷ xs) zero d h l = h.0
  All-get_or P (x ∷ xs) (suc i) d h l = All-get_or P xs i d h.1 (omega arith)

  pub All-set : (P : A → Type 0) (xs : List A) (i : ℕ) (x : A) → P x → All P xs → All P (set xs i x)
  All-set P [] i x p h = tt
  All-set P (y ∷ xs) zero x p h = (p, h.1)
  All-set P (y ∷ xs) (suc i) x p h = (h.0, All-set P xs i x p h.1)

  -- An equal test on equal lists finds the same slot.
  pub find_index-map :
      (p : A → Bool) (f : A → A) (xs : List A)
      → ((x : A) → p (f x) ≡ p x)
      → find_index p (map f xs) ≡ find_index p xs
  unfolding find_index
  find_index-map p f [] h = refl
  find_index-map p f (x ∷ xs) h = rw (h x, find_index-map p f xs h)

-- ===== src/Connectors/Text.antt =====
-- The text of core/execution/common/connectors/idempotency_journal.hpp: how snprintf writes a number in decimal
-- (%u, %llu), and how operator>> reads a number and a word, as lists of bytes. A number has no upper
-- bound, and a sign in front of one is not read: append_record writes neither.
use trading_infrastructure_c.Common.{
  ℕ, zero, suc, ◌+◌, ◌-◌, ◌*◌, ◌/◌, ◌%◌, ◌<◌, ◌≡◌, refl, ap, ◌∙◌, Bool, true, false, ◌&&◌, ◌||◌,
  Option, none, some, List, [], ◌∷◌, ◌++◌, All, ltb, leb, ◌==◌, if◌then◌else◌, arith, Bool-cases,
  inl, inr,
}

-- The white space of the C locale.
abbrev pub is_space : ℕ → Bool
is_space c = c == 32 || (leb 9 c && leb c 13)

abbrev is_digit : ℕ → Bool
is_digit c = leb 48 c && leb c 57

-- The digits of `n` in front of `text`; a number has no more than one digit for each step of its fuel.
unfoldable pub digits : ℕ → ℕ → List ℕ → List ℕ
digits zero n text = text
digits (suc f) n text =
    let rest = digits f (n / 10) ((48 + n % 10) ∷ text) in
    if ltb n 10 then (48 + n) ∷ text else rest

unfoldable pub write_number : ℕ → List ℕ → List ℕ
unfolding digits
write_number n text = digits (suc n) n text

unfoldable pub skip : List ℕ → List ℕ
skip [] = []
skip (c ∷ cs) = let rest = skip cs in if is_space c then rest else c ∷ cs

unfoldable pub scan : ℕ → List ℕ → ℕ × List ℕ
scan n [] = (n, [])
scan n (c ∷ cs) = let rest = scan (n * 10 + (c - 48)) cs in if is_digit c then rest else (n, c ∷ cs)

number_at : List ℕ → Option (ℕ × List ℕ)
unfolding scan
number_at [] = none
number_at (c ∷ cs) = if is_digit c then some (scan (c - 48) cs) else none

-- A read fails at the end of the text, and so does the `good` test after a word that ends there.
unfoldable pub read_number : List ℕ → Option (ℕ × List ℕ)
unfolding number_at skip
read_number text = number_at (skip text)

longer : ℕ → Option (List ℕ × List ℕ) → Option (List ℕ × List ℕ)
longer c none = none
longer c (some (word, rest)) = some (c ∷ word, rest)

word_at : List ℕ → Option (List ℕ × List ℕ)
unfolding longer
word_at [] = none
word_at (c ∷ cs) = let rest = word_at cs in if is_space c then some ([], c ∷ cs) else longer c rest

unfoldable pub read_word : List ℕ → Option (List ℕ × List ℕ)
unfolding word_at skip
read_word text = word_at (skip text)

-- A byte string without white space.
abbrev pub IsWord : List ℕ → Type 0
IsWord w = All (λ c. is_space c ≡ false) w

pub digits-append :
    (f n : ℕ) (text rest : List ℕ) → digits f n text ++ rest ≡ digits f n (text ++ rest)
unfolding digits
digits-append zero n text rest = refl
digits-append (suc f) n text rest = elim (Bool-cases (ltb n 10)) [
  | inl e ↦ rw e refl
  | inr e ↦ rw e (digits-append f (n / 10) ((48 + n % 10) ∷ text) rest)
]

scan-digit : (n d : ℕ) (text : List ℕ) → d < 10 → scan n ((48 + d) ∷ text) ≡ scan (n * 10 + d) text
unfolding scan
scan-digit n d text h =
    let is : is_digit (48 + d) ≡ true = ground arith in
    let cut : 48 + d - 48 ≡ d = omega arith in rw (is, cut) refl

of_nothing : (n : ℕ) → 0 * 10 + n ≡ n
of_nothing n = omega arith

scan-digits : (f n : ℕ) (text : List ℕ) → n < f → scan 0 (digits f n text) ≡ scan n text
unfolding digits
scan-digits zero n text h = absurd (omega arith)
scan-digits (suc f) n text h = elim (Bool-cases (ltb n 10)) [
  | inl e ↦ rw e (scan-digit 0 n text (ground arith) ∙ ap (λ k. scan k text) (of_nothing n))
  | inr e ↦
      let whole : n / 10 * 10 + n % 10 ≡ n = omega arith in
      rw e (
        scan-digits f (n / 10) ((48 + n % 10) ∷ text) (ground arith)
        ∙ scan-digit (n / 10) (n % 10) text (omega arith)
        ∙ ap (λ k. scan k text) whole)
]

-- The first byte of a number is a digit.
record IsDigits (text : List ℕ) : Type 0 where
  first : ℕ
  rest : List ℕ
  begins : text ≡ first ∷ rest
  is : is_digit first ≡ true

digits-IsDigits : (f n : ℕ) (text : List ℕ) → n < f → IsDigits (digits f n text)
unfolding digits
digits-IsDigits zero n text h = absurd (omega arith)
digits-IsDigits (suc f) n text h = elim (Bool-cases (ltb n 10)) [
  | inl e ↦ rw e (record { first = 48 + n; rest = text; begins = refl; is = ground arith })
  | inr e ↦ rw e (digits-IsDigits f (n / 10) ((48 + n % 10) ∷ text) (ground arith))
]

read_digits : (text : List ℕ) → IsDigits text → read_number text ≡ some (scan 0 text)
unfolding read_number skip number_at scan
read_digits text d =
    let c = d.first in
    let cs = d.rest in
    let solid : is_space c ≡ false = ground (arith, d.is) in
    let of_zero : c - 48 ≡ 0 + (c - 48) = omega arith in
    rw d.begins (rw (solid, d.is) (ap (λ k. some (scan k cs)) of_zero))

-- A number that was written, with a byte after it that is no digit, is read back.
pub read_number-write_number :
    (n c : ℕ) (text : List ℕ)
    → is_space c ≡ true
    → read_number (write_number n (c ∷ text)) ≡ some (n, c ∷ text)
unfolding write_number scan
read_number-write_number n c text h =
    let over : is_digit c ≡ false = ground (arith, h) in
    read_digits (digits (suc n) n (c ∷ text)) (digits-IsDigits (suc n) n (c ∷ text) (omega arith))
    ∙ ap some (scan-digits (suc n) n (c ∷ text) (omega arith) ∙ rw over refl)

-- White space in front changes nothing.
pub read_number-space :
    (c : ℕ) (text : List ℕ) → is_space c ≡ true → read_number (c ∷ text) ≡ read_number text
unfolding read_number skip
read_number-space c text h = rw h refl

word_at-append :
    (w : List ℕ) (c : ℕ) (text : List ℕ)
    → IsWord w
    → is_space c ≡ true
    → word_at (w ++ c ∷ text) ≡ some (w, c ∷ text)
unfolding word_at longer
word_at-append [] c text h s = rw s refl
word_at-append (x ∷ w) c text h s = rw (h.0, word_at-append w c text h.1 s) refl

pub read_word-append :
    (x : ℕ) (w : List ℕ) (c : ℕ) (text : List ℕ)
    → IsWord (x ∷ w)
    → is_space c ≡ true
    → read_word (32 ∷ x ∷ (w ++ c ∷ text)) ≡ some (x ∷ w, c ∷ text)
unfolding read_word skip
read_word-append x w c text h s = rw h.0 (word_at-append (x ∷ w) c text h s)

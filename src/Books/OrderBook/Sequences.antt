-- ===== src/Books/OrderBook/Sequences.antt =====
-- What a delta of core/orderbook/orderbook.hpp does to the sequence number of the book.
use trading_infrastructure_c.Common.{
  ◌≡◌, refl, ℕ, Bool, true, false, not, ◌&&◌, ◌||◌, Option, none, some, arith, ltb, if◌then◌else◌,
  Bool-cases, ◌∙◌, ap, inl, inr,
}
use mathlib.Core.Path.{subst}
use Prim.Native.Nat.{max}
use trading_infrastructure_c.Common.Float.{Float}
use trading_infrastructure_c.Orders.ParentPlan.{Side}
use trading_infrastructure_c.Books.OrderBook.{
  BookResult, success, Cell, Delta, OrderBook, price_to_index,
}
use trading_infrastructure_c.Books.OrderBook.Deltas.{
  recenter_grid, advance, write_side, write_delta, after_recenter, out_of_grid, improves,
  breach_ticks, should_recenter, place_delta, apply_delta,
}

module _ (F : Float) where
  open F use {double}
  open F.double use {Carrier, zero as nought, le, lt}

  abbrev is_success : BookResult → Bool
  is_success success = true
  is_success _ = false

  -- `new` is the sequence number of a book that was at `old` and took a delta of sequence number `n`.
  abbrev expected_sequence : Bool → ℕ → ℕ → ℕ
  expected_sequence true n old = max old n
  expected_sequence false n old = old

  abbrev Follows : ℕ → ℕ → BookResult × OrderBook F → Type 0
  Follows n old r = r.1.sequence ≡ expected_sequence (is_success r.0) n old

  write_side-sequence :
      (s : Side) (i : ℕ) (c : Cell F) (b : OrderBook F)
      → (write_side F s i c b).sequence ≡ b.sequence
  unfolding write_side
  write_side-sequence Side.bid i c b = refl
  write_side-sequence Side.ask i c b = refl

  decided :
      (t : Bool) (x y : BookResult × OrderBook F) (n old : ℕ)
      → (t ≡ true → Follows n old x)
      → (t ≡ false → Follows n old y)
      → Follows n old (if t then x else y)
  decided true x y n old hx hy = hx refl
  decided false x y n old hx hy = hy refl

  -- Not older than a book at `old`.
  abbrev IsFresh : ℕ → ℕ → Type 0
  IsFresh n old = (ltb 0 n && ltb n old) ≡ false

  advance-sequence :
      (n : ℕ) (b : OrderBook F) → IsFresh n b.sequence → (advance F n b).sequence ≡ max b.sequence n
  unfolding advance
  advance-sequence n b h = ground arith

  write_delta-sequence :
      (d : Delta F) (i : ℕ) (b : OrderBook F)
      → IsFresh d.sequence b.sequence
      → Follows d.sequence b.sequence (write_delta F d i b)
  unfolding write_delta
  write_delta-sequence d i b h =
      let c : Cell F = record { size = d.size; order_count = d.order_count } in
      let calm = record b { out_of_range_streak = 0 } in
      let same = write_side-sequence d.side i c calm in
      advance-sequence d.sequence (write_side F d.side i c calm) (rw same h)
      ∙ ap (λ n. max n d.sequence) same

  after_recenter-sequence :
      (d : Delta F) (o : Option ℕ) (b : OrderBook F)
      → IsFresh d.sequence b.sequence
      → Follows d.sequence b.sequence (after_recenter F d o b)
  unfolding after_recenter
  after_recenter-sequence d none b h = refl
  after_recenter-sequence d (some i) b h = write_delta-sequence d i b h

  out_of_grid-sequence :
      (d : Delta F) (r : Bool × OrderBook F)
      → IsFresh d.sequence r.1.sequence
      → Follows d.sequence r.1.sequence (out_of_grid F d r)
  unfolding out_of_grid recenter_grid
  out_of_grid-sequence d (true, b) h =
      after_recenter-sequence d (price_to_index F d.price (recenter_grid F d.price b))
        (recenter_grid F d.price b) h
  out_of_grid-sequence d (false, b) h = advance-sequence d.sequence b h

  should_recenter-sequence :
      (d : Delta F) (b : OrderBook F) → (should_recenter F d b).1.sequence ≡ b.sequence
  unfolding should_recenter
  should_recenter-sequence d b =
      elim (Bool-cases
        (not (improves F d.side d.price b) || le (breach_ticks F d.price b) nought)) [
          | inl e ↦ rw e refl
          | inr e ↦ rw e refl
        ]

  place_delta-sequence :
      (d : Delta F) (o : Option ℕ) (b : OrderBook F)
      → IsFresh d.sequence b.sequence
      → Follows d.sequence b.sequence (place_delta F d o b)
  unfolding place_delta
  place_delta-sequence d none b h =
      let same = should_recenter-sequence d b in
      subst (λ n. Follows d.sequence n (out_of_grid F d (should_recenter F d b))) same
        (out_of_grid-sequence d (should_recenter F d b) (rw same h))
  place_delta-sequence d (some i) b h = write_delta-sequence d i b h

  stale : (n old : ℕ) → (ltb 0 n && ltb n old) ≡ true → old ≡ max old n
  stale n old h = ground arith

  -- For every book and delta, the sequence number afterwards is the greater of the book's and the delta's
  -- if the call succeeds, whether the level was written, lay outside the grid or was older than the book,
  -- and the book's own if the call returns an error.
  pub apply_delta-sequence :
      (d : Delta F) (b : OrderBook F)
      → (apply_delta F d b).1.sequence
        ≡ expected_sequence (is_success (apply_delta F d b).0) d.sequence b.sequence
  unfolding apply_delta
  apply_delta-sequence d b =
      decided (not b.initialized) _ _ d.sequence b.sequence (λ _. refl)
        (λ _.
          decided (lt d.size nought) _ _ d.sequence b.sequence (λ _. refl)
            (λ _.
              decided (ltb 0 d.sequence && ltb d.sequence b.sequence) _ _ d.sequence b.sequence
                (stale d.sequence b.sequence)
                (place_delta-sequence d (price_to_index F d.price b) b)))

-- ===== src/Books/OrderBook/Recentering.antt =====
-- Where recenter_grid of core/orderbook/orderbook.hpp moves the cells of a side.
use trading_infrastructure_c.Common.{
  ◌≡◌, refl, sym, ◌∙◌, inl, inr, ℕ, zero, suc, ◌+◌, ◌<◌, ◌≤◌, true, Option, none, some, List,
  get_or, set, length, length-set, length-replicate, replicate, arith, Bool-cases, Option-cases,
  ◌==◌, ap,
}
use trading_infrastructure_c.Common.Int.{
  ℤ, pos, pos_part, neg_part, ◌+ℤ◌, ◌-ℤ◌, +ℤ_parts, -ℤ_parts, eq_of_parts,
}
use trading_infrastructure_c.Common.Slots.{get_or-replicate, get_or-set, get_or-set_other}
use trading_infrastructure_c.Common.Float.{Float}
use trading_infrastructure_c.Books.OrderBook.{Cell, blank_cell, within}
use trading_infrastructure_c.Books.OrderBook.Deltas.{move_cell, move_cells, recenter_side}

eq_of_== : (a b : ℕ) → (a == b) ≡ true → a ≡ b
eq_of_== a b h = ground arith

-- Index `i` moved by `shift` ticks is index `j`.
abbrev Lands : ℤ → ℕ → ℕ → Type 0
Lands shift i j = i + pos_part shift ≡ j + neg_part shift

landed : (shift : ℤ) (i j : ℕ) → pos i +ℤ shift ≡ pos j → Lands shift i j
landed shift i j h = omega (arith, ap pos_part h, ap neg_part h, +ℤ_parts (pos i) shift)

land : (shift : ℤ) (i j : ℕ) → Lands shift i j → pos i +ℤ shift ≡ pos j
land shift i j h = eq_of_parts (pos i +ℤ shift) (pos j) (omega (arith, h, +ℤ_parts (pos i) shift))

came : (shift : ℤ) (k j : ℕ) → pos j -ℤ shift ≡ pos k → Lands shift k j
came shift k j h = omega (arith, ap pos_part h, ap neg_part h, -ℤ_parts (pos j) shift)

come : (shift : ℤ) (k j : ℕ) → Lands shift k j → pos j -ℤ shift ≡ pos k
come shift k j h = eq_of_parts (pos j -ℤ shift) (pos k) (omega (arith, h, -ℤ_parts (pos j) shift))

pub none≢some : {A : Type 0} {a : A} → none ≡ some a → ⊥
none≢some h = ground arith

module _ (F : Float) where
  pub within-some :
      (levels : ℕ) (z : ℤ) (j : ℕ) → within F levels z ≡ some j → (z ≡ pos j) × (j < levels)
  unfolding within
  within-some levels z j h = ground arith

  within-pos : (levels j : ℕ) → j < levels → within F levels (pos j) ≡ some j
  unfolding within
  within-pos levels j h = ground arith

  lands :
      (shift : ℤ) (levels i j : ℕ)
      → within F levels (pos i +ℤ shift) ≡ some j
      → Lands shift i j × (j < levels)
  lands shift levels i j h =
      let (sum, low) = within-some levels (pos i +ℤ shift) j h in (landed shift i j sum, low)

  Lands-back :
      (shift : ℤ) (levels i j : ℕ)
      → Lands shift i j
      → j < levels
      → within F levels (pos i +ℤ shift) ≡ some j
  Lands-back shift levels i j h low = rw (land shift i j h) (within-pos levels j low)

  comes :
      (shift : ℤ) (levels k j : ℕ)
      → within F levels (pos j -ℤ shift) ≡ some k
      → Lands shift k j × (k < levels)
  comes shift levels k j h =
      let (difference, low) = within-some levels (pos j -ℤ shift) k h in
      (came shift k j difference, low)

  comes_back :
      (shift : ℤ) (levels k j : ℕ)
      → Lands shift k j
      → k < levels
      → within F levels (pos j -ℤ shift) ≡ some k
  comes_back shift levels k j h low = rw (come shift k j h) (within-pos levels k low)

  length-move_cell :
      (c : Cell F) (o : Option ℕ) (scratch : List (Cell F))
      → length (move_cell F c o scratch) ≡ length scratch
  unfolding move_cell
  length-move_cell c none scratch = refl
  length-move_cell c (some j) scratch = length-set scratch j c

  length-move_cells :
      (shift : ℤ) (levels n i : ℕ) (old scratch : List (Cell F))
      → length (move_cells F shift levels n i old scratch) ≡ length scratch
  unfolding move_cells
  length-move_cells shift levels zero i old scratch = refl
  length-move_cells shift levels (suc n) i old scratch =
      length-move_cells shift levels n (suc i) old
        (move_cell F (get_or old i (blank_cell F)) (within F levels (pos i +ℤ shift)) scratch)
      ∙ length-move_cell (get_or old i (blank_cell F)) (within F levels (pos i +ℤ shift)) scratch

  pub length-recenter_side :
      (shift : ℤ) (levels : ℕ) (old : List (Cell F))
      → length (recenter_side F shift levels old) ≡ length old
  unfolding recenter_side
  length-recenter_side shift levels old =
      length-move_cells shift levels levels 0 old (replicate (length old) (blank_cell F))
      ∙ length-replicate (length old) (blank_cell F)

  -- A write to another index than `j`.
  move_cell_other :
      (c : Cell F) (o : Option ℕ) (scratch : List (Cell F)) (j : ℕ)
      → (o ≡ some j → ⊥)
      → get_or (move_cell F c o scratch) j (blank_cell F) ≡ get_or scratch j (blank_cell F)
  unfolding move_cell
  move_cell_other c none scratch j h = refl
  move_cell_other c (some i) scratch j h =
      get_or-set_other scratch i j c (blank_cell F) (λ e. h (ap some e))

  move_cells_miss :
      (shift : ℤ) (levels n i j : ℕ) (old scratch : List (Cell F))
      → ((k : ℕ) → i ≤ k → k < i + n → within F levels (pos k +ℤ shift) ≡ some j → ⊥)
      → get_or (move_cells F shift levels n i old scratch) j (blank_cell F)
        ≡ get_or scratch j (blank_cell F)
  unfolding move_cells
  move_cells_miss shift levels zero i j old scratch h = refl
  move_cells_miss shift levels (suc n) i j old scratch h =
      move_cells_miss shift levels n (suc i) j old
        (move_cell F (get_or old i (blank_cell F)) (within F levels (pos i +ℤ shift)) scratch)
        (λ k low high. h k (omega (arith, low)) (omega (arith, high)))
      ∙ move_cell_other (get_or old i (blank_cell F)) (within F levels (pos i +ℤ shift)) scratch j
          (h i (omega arith) (omega arith))

  apart : (shift : ℤ) (i k j : ℕ) → Lands shift i j → Lands shift k j → suc i ≤ k → ⊥
  apart shift i k j a b c = omega (arith, a, b, c)

  move_cells_first :
      (shift : ℤ) (levels n k j : ℕ) (old scratch : List (Cell F))
      → Lands shift k j
      → j < levels
      → j < length scratch
      → get_or (move_cells F shift levels (suc n) k old scratch) j (blank_cell F)
        ≡ get_or old k (blank_cell F)
  unfolding move_cells move_cell
  move_cells_first shift levels n k j old scratch at low room =
      rw (Lands-back shift levels k j at low) (
        move_cells_miss shift levels n (suc k) j old (set scratch j (get_or old k (blank_cell F)))
          (λ m high last m_lands. apart shift k m j at (lands shift levels m j m_lands).0 high)
        ∙ get_or-set scratch j (get_or old k (blank_cell F)) (blank_cell F) room)

  move_cells_hit :
      (shift : ℤ) (levels n i k j : ℕ) (old scratch : List (Cell F))
      → Lands shift k j
      → j < levels
      → j < length scratch
      → i ≤ k
      → k < i + n
      → get_or (move_cells F shift levels n i old scratch) j (blank_cell F)
        ≡ get_or old k (blank_cell F)
  unfolding move_cells
  move_cells_hit shift levels zero i k j old scratch at low room first last = ground arith
  move_cells_hit shift levels (suc n) i k j old scratch at low room first last =
      elim (Bool-cases (k == i)) [
        | inl e ↦
            rw (sym (eq_of_== k i e)) (move_cells_first shift levels n k j old scratch at low room)
        | inr e ↦
            move_cells_hit shift levels n (suc i) k j old
              (move_cell F (get_or old i (blank_cell F)) (within F levels (pos i +ℤ shift)) scratch)
              at low
              (rw
                (length-move_cell (get_or old i (blank_cell F)) (within F levels (pos i +ℤ shift))
                  scratch)
                room)
              (ground arith) (omega (arith, last))
      ]

  -- What stands at an index after the move, by the index it came from.
  abbrev cell_from : Option ℕ → List (Cell F) → Cell F
  cell_from none old = blank_cell F
  cell_from (some k) old = get_or old k (blank_cell F)

  nothing_comes :
      (shift : ℤ) (levels k j : ℕ)
      → within F levels (pos j -ℤ shift) ≡ none
      → k < levels
      → within F levels (pos k +ℤ shift) ≡ some j
      → ⊥
  nothing_comes shift levels k j nowhere low there =
      none≢some (sym nowhere ∙ comes_back shift levels k j (lands shift levels k j there).0 low)

  -- For every shift and every side that has a cell for each active level, index `j` of the active grid
  -- holds, after the loop of recenter_grid, the old cell of index `j - shift` if that lies in the active
  -- grid, and an empty cell if it does not.
  pub recenter_side-shift :
      (shift : ℤ) (levels j : ℕ) (old : List (Cell F))
      → levels ≤ length old
      → j < levels
      → get_or (recenter_side F shift levels old) j (blank_cell F)
        ≡ cell_from (within F levels (pos j -ℤ shift)) old
  unfolding recenter_side
  recenter_side-shift shift levels j old room low =
      elim (Option-cases (within F levels (pos j -ℤ shift))) [
        | inl nowhere ↦ rw nowhere (
            move_cells_miss shift levels levels 0 j old (replicate (length old) (blank_cell F))
              (λ k first last. nothing_comes shift levels k j nowhere (omega (arith, last)))
            ∙ get_or-replicate (length old) j (blank_cell F))
        | inr (k, from) ↦
            let (at, inside) = comes shift levels k j from in
            rw from (
              move_cells_hit shift levels levels 0 k j old (replicate (length old) (blank_cell F))
                at low
                (rw (length-replicate (length old) (blank_cell F)) (omega (arith, room, low)))
                (omega arith) (omega (arith, inside)))
      ]

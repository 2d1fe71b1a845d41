-- ===== src/Books/OrderBook/Sizes.antt =====
-- The operations of core/orderbook/orderbook.hpp keep the sizes of the grid and of its vectors in step.
use trading_infrastructure_c.Common.{
  ◌≡◌, refl, ◌∙◌, inl, inr, ℕ, ◌+◌, ◌≤◌, Bool, true, false, not, ◌&&◌, ◌||◌, Option, none, some,
  ◌*◌, List, [], ◌∷◌, length, length-set, length-replicate, arith, ltb, if◌then◌else◌, Bool-cases,
}
use trading_infrastructure_c.Common.Float.{Float}
use trading_infrastructure_c.Orders.ParentPlan.{Side}
use trading_infrastructure_c.Books.OrderBook.{
  Cell, Snapshot, Delta, PriceLevel, OrderBook, blank_cell, price_to_index,
  compute_snapshot_active_levels, compute_snapshot_base_price, max_allowed_spread_abs,
}
use trading_infrastructure_c.Books.OrderBook.Snapshots.{
  place_at, place_levels, reset_grid, fill_grid, apply_touch, apply_sides, checksum_differs,
}
use trading_infrastructure_c.Books.OrderBook.Deltas.{
  recenter_grid, advance, write_side, write_delta, after_recenter, out_of_grid, improves,
  breach_ticks, should_recenter, place_delta, apply_delta,
}
use trading_infrastructure_c.Books.OrderBook.Recentering.{length-recenter_side}

module _ (F : Float) where
  open F use {double, literal, is_finite, llround}
  open F.double use {Carrier, zero as nought, le, lt, sub, div}

  -- Every index below `active_levels` is inside both vectors.
  abbrev pub Fits : OrderBook F → Type 0
  Fits b =
      (2 ≤ b.max_levels)
      × (b.active_levels ≤ b.max_levels)
      × (length b.bids ≡ b.max_levels)
      × (length b.asks ≡ b.max_levels)

  keep :
      {A : Type 0} (t : Bool) (x y : A × OrderBook F)
      → Fits x.1
      → Fits y.1
      → Fits (if t then x else y).1
  keep true x y hx hy = hx
  keep false x y hx hy = hy

  advance-Fits : (n : ℕ) (b : OrderBook F) → Fits b → Fits (advance F n b)
  unfolding advance
  advance-Fits n b h = elim (Bool-cases (ltb 0 n)) [ inl e ↦ rw e h | inr e ↦ rw e h ]

  write_side-Fits :
      (s : Side) (i : ℕ) (c : Cell F) (b : OrderBook F) → Fits b → Fits (write_side F s i c b)
  unfolding write_side
  write_side-Fits Side.bid i c b (two, low, bids, asks) =
      (two, low, length-set b.bids i c ∙ bids, asks)
  write_side-Fits Side.ask i c b (two, low, bids, asks) =
      (two, low, bids, length-set b.asks i c ∙ asks)

  write_delta-Fits : (d : Delta F) (i : ℕ) (b : OrderBook F) → Fits b → Fits (write_delta F d i b).1
  unfolding write_delta
  write_delta-Fits d i b h =
      advance-Fits d.sequence
        (write_side F d.side i (record { size = d.size; order_count = d.order_count })
          (record b { out_of_range_streak = 0 }))
        (write_side-Fits d.side i (record { size = d.size; order_count = d.order_count })
          (record b { out_of_range_streak = 0 }) h)

  recenter_grid-Fits : (p : Carrier) (b : OrderBook F) → Fits b → Fits (recenter_grid F p b)
  unfolding recenter_grid
  recenter_grid-Fits p b (two, low, bids, asks) = (
    two,
    low,
    length-recenter_side F _ b.active_levels b.bids ∙ bids,
    length-recenter_side F _ b.active_levels b.asks ∙ asks,
  )

  after_recenter-Fits :
      (d : Delta F) (o : Option ℕ) (b : OrderBook F) → Fits b → Fits (after_recenter F d o b).1
  unfolding after_recenter
  after_recenter-Fits d none b h = h
  after_recenter-Fits d (some i) b h = write_delta-Fits d i b h

  out_of_grid-Fits : (d : Delta F) (r : Bool × OrderBook F) → Fits r.1 → Fits (out_of_grid F d r).1
  unfolding out_of_grid
  out_of_grid-Fits d (true, b) h =
      after_recenter-Fits d (price_to_index F d.price (recenter_grid F d.price b))
        (recenter_grid F d.price b) (recenter_grid-Fits d.price b h)
  out_of_grid-Fits d (false, b) h = advance-Fits d.sequence b h

  should_recenter-Fits : (d : Delta F) (b : OrderBook F) → Fits b → Fits (should_recenter F d b).1
  unfolding should_recenter
  should_recenter-Fits d b h =
      keep (not (improves F d.side d.price b) || le (breach_ticks F d.price b) nought) _ _ h h

  place_delta-Fits :
      (d : Delta F) (o : Option ℕ) (b : OrderBook F) → Fits b → Fits (place_delta F d o b).1
  unfolding place_delta
  place_delta-Fits d none b h =
      out_of_grid-Fits d (should_recenter F d b) (should_recenter-Fits d b h)
  place_delta-Fits d (some i) b h = write_delta-Fits d i b h

  pub apply_delta-Fits : (d : Delta F) (b : OrderBook F) → Fits b → Fits (apply_delta F d b).1
  unfolding apply_delta
  apply_delta-Fits d b h = keep (not b.initialized) _ _ h (
      keep (lt d.size nought) _ _ h (
        keep (ltb 0 d.sequence && ltb d.sequence b.sequence) _ _ h
          (place_delta-Fits d (price_to_index F d.price b) b h)))

  length-place_at :
      (o : Option ℕ) (l : PriceLevel F) (acc : ℕ × List (Cell F))
      → length (place_at F o l acc).1 ≡ length acc.1
  unfolding place_at
  length-place_at none l (skipped, cells) = refl
  length-place_at (some i) l (skipped, cells) =
      length-set cells i (record { size = l.size; order_count = l.order_count })

  length-place_levels :
      (b : OrderBook F) (ls : List (PriceLevel F)) (acc : ℕ × List (Cell F))
      → length (place_levels F b ls acc).1 ≡ length acc.1
  unfolding place_levels
  length-place_levels b [] acc = refl
  length-place_levels b (l ∷ ls) acc =
      length-place_levels b ls (place_at F (price_to_index F l.price b) l acc)
      ∙ length-place_at (price_to_index F l.price b) l acc

  fill_grid-Fits : (s : Snapshot F) (b : OrderBook F) → Fits b → Fits (fill_grid F s b).1
  unfolding fill_grid
  fill_grid-Fits s b (two, low, bids, asks) =
      let bid_cells = place_levels F b s.bids (0, b.bids) in
      let ask_cells = place_levels F b s.asks (bid_cells.0, b.asks) in
      keep (ltb (length s.bids + length s.asks) (ask_cells.0 * 2)) _ _
        (
          two,
          low,
          length-place_levels b s.bids (0, b.bids) ∙ bids,
          length-place_levels b s.asks (bid_cells.0, b.asks) ∙ asks,
        )
        (
          two,
          low,
          length-place_levels b s.bids (0, b.bids) ∙ bids,
          length-place_levels b s.asks (bid_cells.0, b.asks) ∙ asks,
        )

  reset_grid-Fits :
      (levels : ℕ) (base : Carrier) (n : ℕ) (b : OrderBook F)
      → levels ≤ b.max_levels
      → Fits b
      → Fits (reset_grid F levels base n b)
  unfolding reset_grid
  reset_grid-Fits levels base n b low (two, _, bids, asks) = (
    two,
    low,
    length-replicate b.max_levels (blank_cell F),
    length-replicate b.max_levels (blank_cell F),
  )

  active_levels-bounded :
      (p : Carrier) (b : OrderBook F)
      → 2 ≤ b.max_levels
      → compute_snapshot_active_levels F p b ≤ b.max_levels
  unfolding compute_snapshot_active_levels
  active_levels-bounded p b two =
      elim (Bool-cases
        (not (is_finite (div p b.tick_size)) || le (div p b.tick_size) (literal 2 0))) [
          | inl e ↦ rw e (ground arith)
          | inr e ↦ rw e (ground arith)
        ]

  apply_touch-Fits :
      (sum : Snapshot F → ℕ) (s : Snapshot F) (bid ask : Carrier) (b : OrderBook F)
      → Fits b
      → Fits (apply_touch F sum s bid ask b).1
  unfolding apply_touch
  apply_touch-Fits sum s bid ask b h =
      let levels = compute_snapshot_active_levels F bid b in
      let base = compute_snapshot_base_price F bid levels b in
      keep (le (sub ask bid) nought) _ _ h (
        keep (lt (max_allowed_spread_abs F levels b) (sub ask bid)) _ _ h (
          keep (checksum_differs F sum s s.checksum) _ _ h (
            fill_grid-Fits s (reset_grid F levels base s.sequence b)
              (reset_grid-Fits levels base s.sequence b (active_levels-bounded bid b h.0) h))))

  pub apply_sides-Fits :
      (sum : Snapshot F → ℕ) (s : Snapshot F) (bids asks : List (PriceLevel F)) (b : OrderBook F)
      → Fits b
      → Fits (apply_sides F sum s bids asks b).1
  unfolding apply_sides
  apply_sides-Fits sum s [] asks b h = h
  apply_sides-Fits sum s (bid ∷ bids) [] b h = h
  apply_sides-Fits sum s (bid ∷ bids) (ask ∷ asks) b h =
      apply_touch-Fits sum s bid.price ask.price b h

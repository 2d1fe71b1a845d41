-- ===== src/Books/OrderBook/Snapshots.antt =====
-- Snapshots of core/orderbook/orderbook.hpp: the checks and the filling of a new grid.
use trading_infrastructure_c.Common.{
  ℕ, suc, ◌+◌, ◌*◌, Bool, true, false, not, Option, none, some, List, [], ◌∷◌, ltb, ◌==◌,
  if◌then◌else◌, length, set, replicate,
}
use trading_infrastructure_c.Common.Float.{Float}
use trading_infrastructure_c.Books.OrderBook.{
  BookResult, success, error_invalid_price, error_book_corrupted, Cell, PriceLevel, Snapshot,
  OrderBook, blank_cell, price_to_index, compute_snapshot_active_levels,
  compute_snapshot_base_price, max_allowed_spread_abs,
}

module _ (F : Float) where
  open F use {double, literal, of_ℕ, llround, floor_ℕ, is_finite}
  open F.double use {Carrier, zero as nought, le, lt, add, sub, mul, div, neg}

  -- A loop over the levels of a snapshot: how many lie outside the grid, and the cells.
  unfoldable pub place_at : Option ℕ → PriceLevel F → ℕ × List (Cell F) → ℕ × List (Cell F)
  place_at none l (skipped, cells) = (suc skipped, cells)
  place_at (some i) l (skipped, cells) =
      (skipped, set cells i (record { size = l.size; order_count = l.order_count }))

  unfoldable pub place_levels :
      OrderBook F → List (PriceLevel F) → ℕ × List (Cell F) → ℕ × List (Cell F)
  unfolding place_at price_to_index
  place_levels b [] acc = acc
  place_levels b (l ∷ ls) acc = place_levels b ls (place_at (price_to_index F l.price b) l acc)

  -- The grid of a snapshot that passed the checks, empty and on its new base.
  unfoldable pub reset_grid : ℕ → Carrier → ℕ → OrderBook F → OrderBook F
  reset_grid levels base sequence b = record b {
    active_levels = levels;
    base_price = base;
    sequence = sequence;
    initialized = true;
    bids = replicate b.max_levels (blank_cell F);
    asks = replicate b.max_levels (blank_cell F);
    out_of_range_streak = 0;
  }

  unfoldable pub fill_grid : Snapshot F → OrderBook F → BookResult × OrderBook F
  unfolding place_levels
  fill_grid s b =
      let (skipped_bids, bids) = place_levels b s.bids (0, b.bids) in
      let (skipped, asks) = place_levels b s.asks (skipped_bids, b.asks) in
      let filled = record b { bids = bids; asks = asks } in
      if ltb (length s.bids + length s.asks) (skipped * 2)
      then (error_book_corrupted, record filled { initialized = false })
      else (success, filled)

  abbrev pub checksum_differs : (Snapshot F → ℕ) → Snapshot F → Option ℕ → Bool
  checksum_differs sum s none = false
  checksum_differs sum s (some c) = not (sum s == c)

  unfoldable pub apply_touch :
      (Snapshot F → ℕ) → Snapshot F → Carrier → Carrier → OrderBook F → BookResult × OrderBook F
  unfolding reset_grid fill_grid compute_snapshot_active_levels compute_snapshot_base_price
      max_allowed_spread_abs
  apply_touch sum s best_bid best_ask b =
      let spread = sub best_ask best_bid in
      let levels = compute_snapshot_active_levels F best_bid b in
      let base = compute_snapshot_base_price F best_bid levels b in
      if le spread nought
      then (error_invalid_price, b)
      else if lt (max_allowed_spread_abs F levels b) spread
      then (error_invalid_price, b)
      else if checksum_differs sum s s.checksum
      then (error_book_corrupted, b)
      else fill_grid s (reset_grid levels base s.sequence b)

  unfoldable pub apply_sides :
      (Snapshot F → ℕ)
      → Snapshot F
      → List (PriceLevel F)
      → List (PriceLevel F)
      → OrderBook F
      → BookResult × OrderBook F
  unfolding apply_touch
  apply_sides sum s (bid ∷ bids) (ask ∷ asks) b = apply_touch sum s bid.price ask.price b
  apply_sides sum s _ _ b = (error_invalid_price, b)

  unfoldable pub apply_snapshot :
      (Snapshot F → ℕ) → Snapshot F → OrderBook F → BookResult × OrderBook F
  unfolding apply_sides
  apply_snapshot sum s b = apply_sides sum s s.bids s.asks b

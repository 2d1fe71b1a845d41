-- ===== src/Books/OrderBook/Deltas.antt =====
-- Deltas of core/orderbook/orderbook.hpp, and the recentering of the grid.
use trading_infrastructure_c.Common.{
  ℕ, zero, suc, ◌+◌, ◌/◌, Bool, true, false, not, ◌&&◌, ◌||◌, Option, none, some, List, ltb, leb,
  if◌then◌else◌, length, get_or, set, replicate, u32,
}
use trading_infrastructure_c.Common.Int.{ℤ, pos, ◌+ℤ◌}
use trading_infrastructure_c.Common.Float.{Float}
use trading_infrastructure_c.Orders.ParentPlan.{Side}
use trading_infrastructure_c.Books.OrderBook.{
  size_pred, BookResult, success, error_invalid_price, error_invalid_size, error_book_corrupted,
  Cell, Delta, OrderBook, blank_cell, within, price_to_index, get_best_bid, get_best_ask,
}

module _ (F : Float) where
  open F use {double, literal, of_ℕ, llround, floor_ℕ, is_finite}
  open F.double use {Carrier, zero as nought, le, lt, add, sub, mul, div, neg}

  pub improves : Side → Carrier → OrderBook F → Bool
  unfolding get_best_bid get_best_ask
  improves Side.bid price b = le (get_best_bid F b) nought || le (get_best_bid F b) price
  improves Side.ask price b = le (get_best_ask F b) nought || le price (get_best_ask F b)

  -- How far outside the grid a price lies, in ticks.
  pub breach_ticks : Carrier → OrderBook F → Carrier
  breach_ticks price b =
      let relative = div (sub price b.base_price) b.tick_size in
      let upper = of_ℕ (size_pred b.active_levels) in
      if lt relative nought
      then neg relative
      else if lt upper relative
      then sub relative upper
      else nought

  unfoldable pub should_recenter : Delta F → OrderBook F → Bool × OrderBook F
  unfolding improves breach_ticks
  should_recenter d b =
      let breach = breach_ticks d.price b in
      let streak = u32 (b.out_of_range_streak + 1) in
      if not (improves d.side d.price b) || le breach nought
      then (false, record b { out_of_range_streak = 0 })
      else (
        le (mul (of_ℕ b.active_levels) (literal 6 1)) breach || leb 4 streak,
        record b { out_of_range_streak = streak },
      )

  -- The loop of recenter_grid over `n` indices from `i` on, on one side of the book.
  unfoldable pub move_cell : Cell F → Option ℕ → List (Cell F) → List (Cell F)
  move_cell c none scratch = scratch
  move_cell c (some j) scratch = set scratch j c

  unfoldable pub move_cells : ℤ → ℕ → ℕ → ℕ → List (Cell F) → List (Cell F) → List (Cell F)
  unfolding move_cell within ◌+ℤ◌
  move_cells shift levels zero i old scratch = scratch
  move_cells shift levels (suc n) i old scratch =
      move_cells shift levels n (suc i) old
        (move_cell (get_or old i (blank_cell F)) (within F levels (pos i +ℤ shift)) scratch)

  unfoldable pub recenter_side : ℤ → ℕ → List (Cell F) → List (Cell F)
  unfolding move_cells
  recenter_side shift levels old =
      move_cells shift levels levels 0 old (replicate (length old) (blank_cell F))

  unfoldable pub recenter_grid : Carrier → OrderBook F → OrderBook F
  unfolding recenter_side
  recenter_grid anchor b =
      let new_base = sub anchor (mul (of_ℕ (b.active_levels / 2)) b.tick_size) in
      let shift = llround (div (sub b.base_price new_base) b.tick_size) in
      record b {
        bids = recenter_side shift b.active_levels b.bids;
        asks = recenter_side shift b.active_levels b.asks;
        base_price = new_base;
        out_of_range_streak = 0;
      }

  unfoldable pub advance : ℕ → OrderBook F → OrderBook F
  advance sequence b = if ltb 0 sequence then record b { sequence = sequence } else b

  unfoldable pub write_side : Side → ℕ → Cell F → OrderBook F → OrderBook F
  write_side Side.bid i c b = record b { bids = set b.bids i c }
  write_side Side.ask i c b = record b { asks = set b.asks i c }

  unfoldable pub write_delta : Delta F → ℕ → OrderBook F → BookResult × OrderBook F
  unfolding advance write_side
  write_delta d i b = (
    success,
    advance d.sequence (
        write_side d.side i (record { size = d.size; order_count = d.order_count })
          (record b { out_of_range_streak = 0 })),
  )

  unfoldable pub after_recenter : Delta F → Option ℕ → OrderBook F → BookResult × OrderBook F
  unfolding write_delta
  after_recenter d none b = (error_invalid_price, b)
  after_recenter d (some i) b = write_delta d i b

  unfoldable pub out_of_grid : Delta F → Bool × OrderBook F → BookResult × OrderBook F
  unfolding after_recenter recenter_grid advance price_to_index
  out_of_grid d (true, b) =
      after_recenter d (price_to_index F d.price (recenter_grid d.price b))
        (recenter_grid d.price b)
  out_of_grid d (false, b) = (success, advance d.sequence b)

  unfoldable pub place_delta : Delta F → Option ℕ → OrderBook F → BookResult × OrderBook F
  unfolding out_of_grid write_delta should_recenter
  place_delta d none b = out_of_grid d (should_recenter d b)
  place_delta d (some i) b = write_delta d i b

  unfoldable pub apply_delta : Delta F → OrderBook F → BookResult × OrderBook F
  unfolding place_delta price_to_index
  apply_delta d b =
      if not b.initialized
      then (error_book_corrupted, b)
      else if lt d.size nought
      then (error_invalid_size, b)
      else if ltb 0 d.sequence && ltb d.sequence b.sequence
      then (success, b)
      else place_delta d (price_to_index F d.price b) b

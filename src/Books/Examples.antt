-- ===== src/Books/Examples.antt =====
-- The theorems on the order book on concrete books, over whole numbers for `double`, with a tick of 1.
use trading_infrastructure_c.Common.{
  ◌≡◌, ◌<◌, ◌≤◌, ℕ, List, [], ◌∷◌, none, true, length, get_or, arith,
}
use trading_infrastructure_c.Common.Int.{pos, negsuc, ◌-ℤ◌}
use trading_infrastructure_c.Common.Whole.{whole_float}
use trading_infrastructure_c.Orders.ParentPlan.{Side}
use trading_infrastructure_c.Books.OrderBook.{
  Cell, PriceLevel, OrderBook, blank_cell, init, price_to_index, within, get_best_bid, get_best_ask,
}
use trading_infrastructure_c.Books.OrderBook.Deltas.{recenter_side}
use trading_infrastructure_c.Books.OrderBook.Scans.{IsTouch, touch_lem}
use trading_infrastructure_c.Books.OrderBook.Recentering.{recenter_side-shift}
use trading_infrastructure_c.Books.OrderBook.Histories.{
  Update, snapshot, delta, run, is_below, run_in_bounds,
}

abbrev cell : ℕ → Cell whole_float
cell n = record { size = pos n; order_count = 1 }

abbrev blank : Cell whole_float
blank = blank_cell whole_float

-- Four levels from 100 on: bids at 100 and 101, an ask at 103.
abbrev book : OrderBook whole_float
book = record {
  tick_size = pos 1;
  max_levels = 4;
  active_levels = 4;
  base_price = pos 100;
  sequence = 7;
  initialized = true;
  bids = cell 5 ∷ cell 6 ∷ blank ∷ blank ∷ [];
  asks = blank ∷ blank ∷ blank ∷ cell 8 ∷ [];
  out_of_range_streak = 0;
}

touch_lem_example :
    IsTouch whole_float (λ j i. i < j) book.bids book (get_best_bid whole_float book)
    × IsTouch whole_float (λ j i. j < i) book.asks book (get_best_ask whole_float book)
touch_lem_example = touch_lem whole_float book

-- The grid moves down by a tick.
recenter_side-shift_example :
    get_or (recenter_side whole_float (negsuc 0) 4 book.bids) 0 blank ≡ cell 6
unfolding within ◌-ℤ◌
recenter_side-shift_example =
    recenter_side-shift whole_float (negsuc 0) 4 0 book.bids (omega arith) (omega arith)

abbrev level : ℕ → ℕ → PriceLevel whole_float
level p n = record { price = pos p; size = pos n; order_count = 1 }

abbrev history : List (Update whole_float)
history =
    snapshot (record {
      bids = level 100 5 ∷ level 99 2 ∷ [];
      asks = level 101 4 ∷ level 102 1 ∷ [];
      sequence = 3;
      checksum = none;
    })
    ∷ delta
        (record { side = Side.bid; price = pos 100; size = pos 9; order_count = 2; sequence = 4 })
    ∷ []

abbrev after : OrderBook whole_float
after = run whole_float (λ s. 0) history (init whole_float (pos 1) 4)

run_in_bounds_example :
    (after.active_levels ≤ length after.bids)
    × (after.active_levels ≤ length after.asks)
    × (is_below whole_float after.active_levels (price_to_index whole_float (pos 100) after) ≡ true)
run_in_bounds_example = run_in_bounds whole_float (λ s. 0) (pos 1) 4 history (pos 100) (omega arith)

-- ===== src/Books/OrderBook/Histories.antt =====
-- Histories of snapshots and deltas on a book of core/orderbook/orderbook.hpp.
use trading_infrastructure_c.Common.{
  ◌≡◌, refl, ltb, ℕ, ◌<◌, ◌≤◌, Bool, true, false, not, Option, none, some, List, [], ◌∷◌, length,
  length-replicate, arith, if◌then◌else◌,
}
use trading_infrastructure_c.Common.Int.{ℤ, pos}
use trading_infrastructure_c.Common.Float.{Float}
use trading_infrastructure_c.Books.OrderBook.{
  Snapshot, Delta, OrderBook, blank_cell, init, within, price_to_index,
}
use trading_infrastructure_c.Books.OrderBook.Snapshots.{apply_snapshot}
use trading_infrastructure_c.Books.OrderBook.Deltas.{apply_delta}
use trading_infrastructure_c.Books.OrderBook.Recentering.{within-some}
use trading_infrastructure_c.Books.OrderBook.Sizes.{Fits, apply_sides-Fits, apply_delta-Fits}

module _ (F : Float) where
  open F use {double, literal, is_finite, llround}
  open F.double use {Carrier, zero as nought, le, lt, sub, div}

  -- What a feed does to a book, and a run of it.
  pub data Update : Type 0 where
    snapshot : Snapshot F → Update
    delta : Delta F → Update

  unfoldable pub apply_update : (Snapshot F → ℕ) → Update → OrderBook F → OrderBook F
  unfolding apply_snapshot apply_delta
  apply_update sum (snapshot s) b = (apply_snapshot F sum s b).1
  apply_update sum (delta d) b = (apply_delta F d b).1

  unfoldable pub run : (Snapshot F → ℕ) → List Update → OrderBook F → OrderBook F
  unfolding apply_update
  run sum [] b = b
  run sum (u ∷ us) b = run sum us (apply_update sum u b)

  apply_update-Fits :
      (sum : Snapshot F → ℕ) (u : Update) (b : OrderBook F)
      → Fits F b
      → Fits F (apply_update sum u b)
  unfolding apply_update apply_snapshot
  apply_update-Fits sum (snapshot s) b h = apply_sides-Fits F sum s s.bids s.asks b h
  apply_update-Fits sum (delta d) b h = apply_delta-Fits F d b h

  run-Fits :
      (sum : Snapshot F → ℕ) (us : List Update) (b : OrderBook F) → Fits F b → Fits F (run sum us b)
  unfolding run
  run-Fits sum [] b h = h
  run-Fits sum (u ∷ us) b h = run-Fits sum us (apply_update sum u b) (apply_update-Fits sum u b h)

  init-Fits : (tick : Carrier) (levels : ℕ) → 2 ≤ levels → Fits F (init F tick levels)
  unfolding init
  init-Fits tick levels two = (
    two,
    omega arith,
    length-replicate levels (blank_cell F),
    length-replicate levels (blank_cell F),
  )

  -- That a level, when there is one, is below `n`.
  abbrev pub is_below : ℕ → Option ℕ → Bool
  is_below n none = true
  is_below n (some i) = ltb i n

  below_levels :
      (t : Bool) (levels : ℕ) (z : ℤ)
      → is_below levels (if t then none else within F levels z) ≡ true
  below_levels true levels z = refl
  below_levels false levels z = to (within F levels z) (λ i h. within-some F levels z i h)
    where
      to :
          (o : Option ℕ)
          → ((i : ℕ) → o ≡ some i → (z ≡ pos i) × (i < levels))
          → is_below levels o ≡ true
      to none h = refl
      to (some i) h = ground (arith, (h i refl).1)

  index-below :
      (p : Carrier) (b : OrderBook F) → is_below b.active_levels (price_to_index F p b) ≡ true
  unfolding price_to_index
  index-below p b =
      below_levels (not b.initialized) b.active_levels
        (llround (div (sub p b.base_price) b.tick_size))

  -- For a book built with two levels at least, after every history of snapshots and deltas, accepted and
  -- refused, the active grid is no longer than either vector, and an index that price_to_index yields,
  -- for any price, is inside the active grid.
  pub run_in_bounds :
      (sum : Snapshot F → ℕ) (tick : Carrier) (levels : ℕ) (us : List Update) (p : Carrier)
      → 2 ≤ levels
      → ((run sum us (init F tick levels)).active_levels
          ≤ length (run sum us (init F tick levels)).bids)
        × ((run sum us (init F tick levels)).active_levels
            ≤ length (run sum us (init F tick levels)).asks)
        × (is_below
              (run sum us (init F tick levels)).active_levels
              (price_to_index F p (run sum us (init F tick levels)))
            ≡ true)
  run_in_bounds sum tick levels us p two =
      let (_, low, bids, asks) = run-Fits sum us (init F tick levels) (init-Fits tick levels two) in
      (
        omega (arith, low, bids),
        omega (arith, low, asks),
        index-below p (run sum us (init F tick levels)),
      )

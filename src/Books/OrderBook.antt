-- ===== src/Books/OrderBook.antt =====
-- core/orderbook/orderbook.hpp: a grid of price levels, over an abstract `double`. A side of the book is
-- one list of cells, where the source has a vector of sizes and a vector of order counts that it always
-- writes together. Strings, times and the log are left out; the checksum reads the bytes of doubles, so it is
-- a parameter of `apply_snapshot`.
pub mod Snapshots
pub mod Deltas
pub mod Scans
pub mod Recentering
pub mod Sizes
pub mod Histories
pub mod Sequences
use Prim.Native.Nat.{max, min}
use trading_infrastructure_c.Common.{
  ℕ, zero, suc, ◌+◌, ◌-◌, ◌*◌, ◌/◌, Bool, true, false, not, ◌&&◌, ◌||◌, Option, none, some, List,
  [], ◌∷◌, ltb, leb, ◌==◌, if◌then◌else◌, length, get_or, replicate, u32, u64_mod, ◌%◌,
}
use trading_infrastructure_c.Common.Int.{ℤ, pos, negsuc, ◌+ℤ◌}
use trading_infrastructure_c.Common.Float.{Float, max_of}
use trading_infrastructure_c.Orders.ParentPlan.{Side}

pub data BookResult : Type 0 where
  success error_invalid_sequence error_invalid_price error_invalid_size error_sequence_gap
        error_book_corrupted error_connection_lost :
      BookResult

-- n - 1 in a size_t.
abbrev pub size_pred : ℕ → ℕ
size_pred n = (n + 18_446_744_073_709_551_615) % u64_mod

module _ (F : Float) where
  open F use {double, literal, of_ℕ, llround, floor_ℕ, is_finite}
  open F.double use {Carrier, zero as nought, le, lt, add, sub, mul, div, neg}

  pub record Cell : Type 0 where
    pub size : Carrier
    pub order_count : ℕ

  pub record PriceLevel : Type 0 where
    pub price : Carrier
    pub size : Carrier
    pub order_count : ℕ

  -- `none` stands for a snapshot without a checksum.
  pub record Snapshot : Type 0 where
    pub bids : List PriceLevel
    pub asks : List PriceLevel
    pub sequence : ℕ
    pub checksum : Option ℕ

  pub record Delta : Type 0 where
    pub side : Side
    pub price : Carrier
    pub size : Carrier
    pub order_count : ℕ
    pub sequence : ℕ

  pub record OrderBook : Type 0 where
    pub tick_size : Carrier
    pub max_levels : ℕ
    pub active_levels : ℕ
    pub base_price : Carrier
    pub sequence : ℕ
    pub initialized : Bool
    pub bids : List Cell
    pub asks : List Cell
    pub out_of_range_streak : ℕ

  abbrev pub blank_cell : Cell
  blank_cell = record { size = nought; order_count = 0 }

  unfoldable pub init : Carrier → ℕ → OrderBook
  init tick levels = record {
    tick_size = tick;
    max_levels = levels;
    active_levels = levels;
    base_price = nought;
    sequence = 0;
    initialized = false;
    bids = replicate levels blank_cell;
    asks = replicate levels blank_cell;
    out_of_range_streak = 0;
  }

  -- The index of a rounded price, if it lies in the active part of the grid.
  unfoldable pub within : ℕ → ℤ → Option ℕ
  within levels (pos i) = if ltb i levels then some i else none
  within levels (negsuc i) = none

  unfoldable pub price_to_index : Carrier → OrderBook → Option ℕ
  unfolding within
  price_to_index price b =
      if not b.initialized
      then none
      else within b.active_levels (llround (div (sub price b.base_price) b.tick_size))

  unfoldable pub index_to_price : ℕ → OrderBook → Carrier
  index_to_price i b = add b.base_price (mul (of_ℕ i) b.tick_size)

  abbrev pub is_positive : Cell → Bool
  is_positive c = lt nought c.size

  -- The downward loop of get_best_bid below index `n`, and the upward one of get_best_ask over `n`
  -- indices from `i` on.
  unfoldable pub highest : ℕ → List Cell → Option ℕ
  highest zero cells = none
  highest (suc n) cells =
      let rest = highest n cells in if is_positive (get_or cells n blank_cell) then some n else rest

  unfoldable pub lowest : ℕ → ℕ → List Cell → Option ℕ
  lowest zero i cells = none
  lowest (suc n) i cells =
      let rest = lowest n (suc i) cells in
      if is_positive (get_or cells i blank_cell) then some i else rest

  unfoldable pub price_at : Option ℕ → OrderBook → Carrier
  unfolding index_to_price
  price_at none b = nought
  price_at (some i) b = index_to_price i b

  unfoldable pub get_best_bid : OrderBook → Carrier
  unfolding highest price_at
  get_best_bid b = price_at (highest b.active_levels b.bids) b

  unfoldable pub get_best_ask : OrderBook → Carrier
  unfolding lowest price_at
  get_best_ask b = price_at (lowest b.active_levels 0 b.asks) b

  unfoldable pub get_mid_price : OrderBook → Carrier
  unfolding get_best_bid get_best_ask
  get_mid_price b =
      let bid = get_best_bid b in
      let ask = get_best_ask b in
      if lt nought bid && lt nought ask then div (add bid ask) (literal 2 0) else nought

  pub get_spread : OrderBook → Carrier
  unfolding get_best_bid get_best_ask
  get_spread b = sub (get_best_ask b) (get_best_bid b)

  abbrev pub level_at : ℕ → Cell → OrderBook → PriceLevel
  level_at i c b = record { price = index_to_price i b; size = c.size; order_count = c.order_count }

  -- The loops of get_top_levels, which stop when `room` levels have been found.
  unfoldable pub top_down : ℕ → ℕ → List Cell → OrderBook → List PriceLevel
  top_down zero room cells b = []
  top_down (suc n) zero cells b = []
  top_down (suc n) (suc room) cells b =
      let c = get_or cells n blank_cell in
      let taken = level_at n c b ∷ top_down n room cells b in
      let rest = top_down n (suc room) cells b in if is_positive c then taken else rest

  unfoldable pub bottom_up : ℕ → ℕ → ℕ → List Cell → OrderBook → List PriceLevel
  bottom_up zero i room cells b = []
  bottom_up (suc n) i zero cells b = []
  bottom_up (suc n) i (suc room) cells b =
      let c = get_or cells i blank_cell in
      let taken = level_at i c b ∷ bottom_up n (suc i) room cells b in
      let rest = bottom_up n (suc i) (suc room) cells b in if is_positive c then taken else rest

  unfoldable pub get_top_levels : ℕ → OrderBook → List PriceLevel × List PriceLevel
  unfolding top_down bottom_up
  get_top_levels n b = (top_down b.active_levels n b.bids b, bottom_up b.active_levels 0 n b.asks b)

  abbrev pub min_active_levels : ℕ
  min_active_levels = 1024

  unfoldable pub compute_snapshot_active_levels : Carrier → OrderBook → ℕ
  compute_snapshot_active_levels best_bid b =
      let ticks = div best_bid b.tick_size in
      let centered = (floor_ℕ (sub ticks (literal 1 0)) * 2) % u64_mod in
      if not (is_finite ticks) || le ticks (literal 2 0)
      then min b.max_levels min_active_levels
      else max 2 (min b.max_levels (max min_active_levels (min b.max_levels centered)))

  pub compute_snapshot_base_price : Carrier → ℕ → OrderBook → Carrier
  compute_snapshot_base_price best_bid levels b =
      let centered = sub best_bid (mul (of_ℕ (levels / 2)) b.tick_size) in
      if lt nought centered then centered else b.tick_size

  pub max_allowed_spread_abs : ℕ → OrderBook → Carrier
  max_allowed_spread_abs levels b =
      max_of F b.tick_size (mul (mul (of_ℕ levels) b.tick_size) (literal 25 2))

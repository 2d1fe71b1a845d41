-- ===== src/Feeds/BookManager.antt =====
-- core/feeds/common/book_manager.hpp: the order book of a feed, with the publisher of its state. A snapshot or
-- a delta has its two times here beside the fields that the book reads. The readings of the two
-- clocks are arguments; members that are atomic are read and written by one thread at a time.
pub mod Publishing
mod Examples
use trading_infrastructure_c.Common.{
  ℕ, ◌+◌, Bool, true, false, not, ◌&&◌, ◌||◌, Option, none, some, List, [], if◌then◌else◌, u64,
}
use trading_infrastructure_c.Common.Int.{ℤ, pos, ◌-ℤ◌, ltb_ℤ, leb_ℤ}
use trading_infrastructure_c.Common.Float.{Float}
use trading_infrastructure_c.Connectors.OrderMap.{Exchange}
use trading_infrastructure_c.Books.OrderBook.{
  BookResult, OrderBook, Snapshot, Delta, get_top_levels, get_mid_price,
}
use trading_infrastructure_c.Books.OrderBook.Snapshots.{apply_snapshot}
use trading_infrastructure_c.Books.OrderBook.Deltas.{apply_delta}
use trading_infrastructure_c.Ipc.LobPublisher.{Message, Publisher, is_open, publish}

abbrev pub is_success : BookResult → Bool
is_success BookResult.success = true
is_success _ = false

abbrev pub max_local_gap_ns : ℤ
max_local_gap_ns = pos 60_000_000_000

abbrev pub is_positive : ℤ → Bool
is_positive t = ltb_ℤ (pos 0) t

-- The wall clock and the steady one.
pub record Clocks : Type 0 where
  pub wall_now_ns : ℤ
  pub steady_now_ns : ℤ

abbrev pub wall_ts_ns : ℤ → Clocks → ℤ
wall_ts_ns local c = if is_positive local then local else c.wall_now_ns

module _ (F : Float) where
  open F.double use {Carrier, zero as nought, add}

  pub record TradeFlow : Type 0 where
    pub last_trade_price : Carrier
    pub last_trade_size : Carrier
    pub recent_traded_volume : Carrier
    pub trade_direction : ℕ

  pub record TimedSnapshot : Type 0 where
    pub snapshot : Snapshot F
    pub timestamp_local_ns : ℤ
    pub timestamp_exchange_ns : ℤ

  pub record TimedDelta : Type 0 where
    pub delta : Delta F
    pub timestamp_local_ns : ℤ
    pub timestamp_exchange_ns : ℤ

  pub record BookManager : Type 0 where
    pub symbol : List ℕ
    pub exchange : Exchange
    pub book : OrderBook F
    pub last_update_steady_ns : ℤ
    pub publisher : Option (Publisher F)
    pub last_publish_local_ts_ns : ℤ
    pub last_publish_exchange_ts_ns : ℤ
    pub timestamp_issue_count : ℕ
    pub last_trade_flow : TradeFlow
    pub trade_window_start_ns : ℤ
    pub trade_window_volume : Carrier

  -- What is published of the book as it stands.
  unfoldable pub message_of : ℤ → BookManager → Message F
  unfolding get_top_levels get_mid_price
  message_of timestamp_ns b = record {
    exchange = b.exchange;
    symbol = b.symbol;
    timestamp_ns = timestamp_ns;
    mid_price = get_mid_price F b.book;
    bids = (get_top_levels F 10 b.book).0;
    asks = (get_top_levels F 10 b.book).1;
    trade_direction = b.last_trade_flow.trade_direction;
  }

  unfoldable pub publish_lob : ℤ → BookManager → BookManager
  unfolding publish message_of
  publish_lob timestamp_ns b = elim b.publisher [
    | none ↦ b
    | some p ↦
        if not (is_open F p)
        then b
        else record b { publisher = some (publish F (message_of timestamp_ns b) p) }
  ]

  abbrev pub is_issue : ℤ → ℤ → BookManager → Bool
  is_issue local exchange b =
      leb_ℤ local (pos 0)
      || (is_positive b.last_publish_local_ts_ns && ltb_ℤ local b.last_publish_local_ts_ns)
      || (is_positive b.last_publish_local_ts_ns
          && ltb_ℤ max_local_gap_ns (local -ℤ b.last_publish_local_ts_ns))
      || (is_positive exchange
          && is_positive b.last_publish_exchange_ts_ns
          && ltb_ℤ exchange b.last_publish_exchange_ts_ns)

  unfoldable pub inspect_timestamp : ℤ → ℤ → BookManager → BookManager
  inspect_timestamp local exchange b = record b {
    timestamp_issue_count =
        if is_issue local exchange b
        then u64 (b.timestamp_issue_count + 1)
        else b.timestamp_issue_count;
    last_publish_local_ts_ns = if is_positive local then local else b.last_publish_local_ts_ns;
    last_publish_exchange_ts_ns =
        if is_positive exchange then exchange else b.last_publish_exchange_ts_ns;
  }

  -- What both handlers do after the book has taken the update.
  unfoldable pub after_update : ℤ → ℤ → Clocks → BookManager → BookManager
  unfolding inspect_timestamp publish_lob
  after_update local exchange c b =
      publish_lob (wall_ts_ns local c) (record (inspect_timestamp (wall_ts_ns local c) exchange b) {
        last_update_steady_ns = c.steady_now_ns;
      })

  unfoldable pub snapshot_handler :
      (Snapshot F → ℕ) → TimedSnapshot → Clocks → BookManager → BookManager
  unfolding apply_snapshot after_update
  snapshot_handler sum s c b =
      let (result, book) = apply_snapshot F sum s.snapshot b.book in
      let applied = record b { book = book } in
      if is_success result
      then after_update s.timestamp_local_ns s.timestamp_exchange_ns c applied
      else applied

  unfoldable pub delta_handler : TimedDelta → Clocks → BookManager → BookManager
  unfolding apply_delta after_update
  delta_handler d c b =
      let (result, book) = apply_delta F d.delta b.book in
      let applied = record b { book = book } in
      if is_success result
      then after_update d.timestamp_local_ns d.timestamp_exchange_ns c applied
      else applied

  abbrev starts_window : Clocks → BookManager → Bool
  starts_window c b =
      (leb_ℤ b.trade_window_start_ns (pos 0) && leb_ℤ (pos 0) b.trade_window_start_ns)
      || leb_ℤ (pos 1_000_000_000) (c.wall_now_ns -ℤ b.trade_window_start_ns)

  unfoldable pub trade_handler : TradeFlow → Clocks → BookManager → BookManager
  trade_handler t c b =
      let start = if starts_window c b then c.wall_now_ns else b.trade_window_start_ns in
      let volume =
        add (if starts_window c b then nought else b.trade_window_volume) t.last_trade_size in
      record b {
        trade_window_start_ns = start;
        trade_window_volume = volume;
        last_trade_flow = record t { recent_traded_volume = volume };
      }

-- ===== src/Feeds/OkxFeed.antt =====
-- core/feeds/okx/okx_feed_handler.cpp: the messages of the stream, the handler's own book with its
-- checksum, and the sequence check. What the JSON library, std::stod and std::stoull make of a message
-- is data; the texts of a level and of a sequence number are taken
-- to be numbers, so that neither throws. A side of the handler's book is a list in the
-- order of its map. Callbacks are set, and their calls are kept in a log, the latest first. Times,
-- the log and the socket are left out. `crc32` is crc32_bytes, read as an int32.
pub mod Handler
pub mod Checksum
pub mod Chain
mod Examples
use trading_infrastructure_c.Common.{ℕ, Bool, Option, List}
use trading_infrastructure_c.Common.Int.{ℤ}
use trading_infrastructure_c.Common.Double.{Double}
use trading_infrastructure_c.Orders.ParentPlan.{Side}

pub data Result : Type 0 where
  success error_invalid_sequence error_invalid_price error_invalid_size error_sequence_gap
        error_book_corrupted error_connection_lost :
      Result

pub data State : Type 0 where
  disconnected buffering streaming : State

pub data Reason : Type 0 where
  error_event missing_data empty_book buffered_deltas_failed buffer_overflow sequence_gap
        checksum_mismatch :
      Reason

abbrev pub max_buffer_size : ℕ
max_buffer_size = 1000

module _ (D : Double) where
  open D use {Carrier}

  pub record Level : Type 0 where
    pub price : Carrier
    pub size : Carrier
    pub price_text : List ℕ
    pub size_text : List ℕ
    pub order_count : ℕ

  -- A level that is no array of two at least is malformed.
  pub data LevelJson : Type 0 where
    malformed : LevelJson
    level : Level → LevelJson

  -- The first entry of "data". An absent number is 0, a side that is no array has no levels.
  pub record BookData : Type 0 where
    pub seq : ℕ
    pub prev_seq : ℕ
    pub checksum : Option ℤ
    pub bids : List LevelJson
    pub asks : List LevelJson

  pub record TradeFlow : Type 0 where
    pub last_trade_price : Carrier
    pub last_trade_size : Carrier
    pub trade_direction : Option Bool

  -- `other` is what the handler passes over; the source's early returns say what that is.
  pub data Message : Type 0 where
    other error_message : Message
    trades : List TradeFlow → Message
    book_snapshot : Option BookData → Message
    book_update : BookData → Message

  -- An entry of a map from prices to the texts of a level.
  pub record Entry : Type 0 where
    pub price : Carrier
    pub price_text : List ℕ
    pub size_text : List ℕ

  pub record BookDelta : Type 0 where
    pub side : Side
    pub price : Carrier
    pub size : Carrier
    pub order_count : ℕ
    pub sequence : ℕ

  pub record Snapshot : Type 0 where
    pub sequence : ℕ
    pub bids : List Level
    pub asks : List Level

  pub data Emission : Type 0 where
    emits_delta : BookDelta → Emission
    emits_snapshot : Snapshot → Emission
    emits_trade : TradeFlow → Emission
    emits_error : Reason → Emission

  pub record Feed : Type 0 where
    pub state : State
    pub last_sequence : ℕ
    pub delta_buffer : List BookData
    pub force_reconnect : Bool
    pub bids : List Entry
    pub asks : List Entry
    pub emitted : List Emission

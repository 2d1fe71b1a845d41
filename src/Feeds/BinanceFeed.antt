-- ===== src/Feeds/BinanceFeed.antt =====
-- core/feeds/binance/binance_feed_handler.cpp: how the handler keeps its stream of deltas in sequence
-- with the snapshot. A price or size is a value of the type `Price`, which nothing here computes with.
-- What the JSON library and std::stod make of a message or a response is data: `Message`,
-- `DepthPayload`, `LevelJson`, `SnapshotResponse`. The callbacks' calls are kept in a log, the latest
-- first. The checksum function is a parameter.
pub mod Handler
use trading_infrastructure_c.Common.{ℕ, Bool, Option, List}

pub data Result : Type 0 where
  success error_invalid_sequence error_sequence_gap error_connection_lost error_book_corrupted :
      Result

pub data State : Type 0 where
  disconnected buffering streaming : State

pub data Side : Type 0 where
  bid ask : Side

pub data Reason : Type 0 where
  buffer_overflow sequence_gap snapshot_handoff_gap snapshot_handoff_missing_bridge
        buffered_sequence_gap buffered_delta_apply_failed websocket_disconnected :
      Reason

abbrev pub max_buffer_size : ℕ
max_buffer_size = 8192

module _ (Price : Type 0) where
  pub record ParsedLevel : Type 0 where
    pub price : Price
    pub size : Price

  pub record BufferedDelta : Type 0 where
    pub first_update_id : ℕ
    pub last_update_id : ℕ
    pub timestamp_exchange_ns : ℕ
    pub bids : List ParsedLevel
    pub asks : List ParsedLevel

  -- A level of a message: not an array of two, two strings of which one is no number, or a level.
  pub data LevelJson : Type 0 where
    malformed unparsable : LevelJson
    level : ParsedLevel → LevelJson

  -- The fields of a depth update: an update id that is absent or no unsigned number is `none`, a side
  -- that is no array has no levels.
  pub record DepthPayload : Type 0 where
    pub first_update : Option ℕ
    pub last_update : Option ℕ
    pub timestamp_exchange_ns : ℕ
    pub bids : List LevelJson
    pub asks : List LevelJson

  pub record TradeFlow : Type 0 where
    pub last_trade_price : Price
    pub last_trade_size : Price
    pub trade_direction : ℕ

  pub data Message : Type 0 where
    no_json no_event other_event trade_unparsable : Message
    agg_trade : Price → Price → Bool → Message
    depth_update : DepthPayload → Message

  pub record SnapshotResponse : Type 0 where
    pub status : ℕ
    pub has_body : Bool
    pub is_json : Bool
    pub last_update : Option ℕ
    pub bids : List LevelJson
    pub asks : List LevelJson
    pub checksum : Option ℕ

  pub record Snapshot : Type 0 where
    pub sequence : ℕ
    pub bids : List ParsedLevel
    pub asks : List ParsedLevel
    pub checksum : Option ℕ

  pub record BookDelta : Type 0 where
    pub side : Side
    pub price : Price
    pub size : Price
    pub sequence : ℕ
    pub timestamp_exchange_ns : ℕ

  pub data Emission : Type 0 where
    emits_delta : BookDelta → Emission
    emits_snapshot : Snapshot → Emission
    emits_trade : TradeFlow → Emission
    emits_error : Reason → Emission

  pub record Feed : Type 0 where
    pub state : State
    pub last_sequence : ℕ
    pub delta_buffer : List BufferedDelta
    pub reconnect_requested : Bool
    pub buffer_high_water_mark : ℕ
    pub buffered_applied : ℕ
    pub buffered_skipped : ℕ
    pub resync_count : ℕ
    pub last_resync_reason : Option Reason
    pub emitted : List Emission

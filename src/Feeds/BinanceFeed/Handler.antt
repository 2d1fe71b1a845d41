-- ===== src/Feeds/BinanceFeed/Handler.antt =====
-- The operations of core/feeds/binance/binance_feed_handler.cpp on the state of `BinanceFeed`. All
-- callbacks are set, as the engine sets them. Logging, delays and times are left out.
pub mod Sequence
pub mod Handoff
use Prim.Native.Nat.{max}
use trading_infrastructure_c.Common.{
  ℕ, zero, suc, ◌+◌, ◌-◌, Bool, true, false, not, ◌&&◌, ◌||◌, Option, none, some, List, [], ◌∷◌,
  ◌++◌, map, leb, ◌==◌, if◌then◌else◌, length, u64, ◌⊎◌, inl, inr,
}
use trading_infrastructure_c.Feeds.BinanceFeed.{
  Result, success, error_invalid_sequence, error_sequence_gap, error_connection_lost,
  error_book_corrupted, State, streaming, buffering, disconnected, Side, bid, ask, Reason,
  buffer_overflow, sequence_gap, snapshot_handoff_gap, snapshot_handoff_missing_bridge,
  buffered_sequence_gap, buffered_delta_apply_failed, websocket_disconnected, max_buffer_size,
  ParsedLevel, BufferedDelta, LevelJson, malformed, unparsable, level, DepthPayload, TradeFlow,
  Message, no_json, no_event, other_event, trade_unparsable, agg_trade, depth_update,
  SnapshotResponse, Snapshot, BookDelta, Emission, emits_delta, emits_snapshot, emits_trade,
  emits_error, Feed,
}

abbrev pub is_success : Result → Bool
is_success success = true
is_success _ = false

abbrev pub is_buffering : State → Bool
is_buffering buffering = true
is_buffering _ = false

abbrev is_empty {ℓ} : {A : Type ℓ} → List A → Bool
is_empty [] = true
is_empty (x ∷ xs) = false

-- The id that follows a sequence number, in 64 bits.
abbrev pub next : ℕ → ℕ
next n = u64 (n + 1)

abbrev bridges : ℕ → ℕ → ℕ → Bool
bridges expected first last = leb first expected && leb expected last

-- Where the first loop of apply_buffered_deltas ends, having skipped that many deltas older than the
-- snapshot: at a delta that bridges it, at the end, or at one after a gap.
pub data Scan (Price : Type 0) : Type 0 where
  bridge : ℕ → List (BufferedDelta Price) → Scan Price
  no_bridge : ℕ → Scan Price
  precedes : Scan Price

module _ {Price : Type 0} where
  -- A delta's level that is no pair is left out, one that is no number is an error.
  abbrev pub and_level :
      ParsedLevel Price → Option (List (ParsedLevel Price)) → Option (List (ParsedLevel Price))
  and_level l none = none
  and_level l (some ls) = some (l ∷ ls)

  pub parse_side : List (LevelJson Price) → Option (List (ParsedLevel Price))
  parse_side [] = some []
  parse_side (malformed ∷ ls) = parse_side ls
  parse_side (unparsable ∷ ls) = none
  parse_side (level l ∷ ls) = and_level l (parse_side ls)

  -- parse_levels of a snapshot leaves both out.
  pub parse_levels : List (LevelJson Price) → List (ParsedLevel Price)
  parse_levels [] = []
  parse_levels (malformed ∷ ls) = parse_levels ls
  parse_levels (unparsable ∷ ls) = parse_levels ls
  parse_levels (level l ∷ ls) = l ∷ parse_levels ls

  parse_sides :
      ℕ
      → ℕ
      → ℕ
      → Option (List (ParsedLevel Price))
      → Option (List (ParsedLevel Price))
      → Result ⊎ BufferedDelta Price
  parse_sides first last time (some bids) (some asks) = inr (record {
    first_update_id = first;
    last_update_id = last;
    timestamp_exchange_ns = time;
    bids = bids;
    asks = asks;
  })
  parse_sides first last time _ _ = inl error_book_corrupted

  parse_ids : Option ℕ → Option ℕ → DepthPayload Price → Result ⊎ BufferedDelta Price
  unfolding parse_side parse_sides
  parse_ids (some first) (some last) p =
      parse_sides first last p.timestamp_exchange_ns (parse_side p.bids) (parse_side p.asks)
  parse_ids _ _ p = inl error_invalid_sequence

  pub parse_delta_message : DepthPayload Price → Result ⊎ BufferedDelta Price
  unfolding parse_ids
  parse_delta_message p = parse_ids p.first_update p.last_update p

  pub trigger_resnapshot : Reason → Feed Price → Feed Price
  trigger_resnapshot reason f = record f {
    resync_count = u64 (f.resync_count + 1);
    last_resync_reason = some reason;
    emitted = emits_error reason ∷ f.emitted;
    delta_buffer = [];
    state = buffering;
    reconnect_requested = true;
  }

  abbrev pub validate_delta_sequence : ℕ → ℕ → Feed Price → Bool
  validate_delta_sequence first last f = bridges (next f.last_sequence) first last

  pub emit_levels :
      List (ParsedLevel Price)
      → Side
      → BufferedDelta Price
      → List (Emission Price)
      → List (Emission Price)
  emit_levels [] side d log = log
  emit_levels (l ∷ ls) side d log = emit_levels ls side d (
      emits_delta (record {
        side = side;
        price = l.price;
        size = l.size;
        sequence = d.last_update_id;
        timestamp_exchange_ns = d.timestamp_exchange_ns;
      })
      ∷ log)

  pub apply_delta : BufferedDelta Price → Feed Price → Result × Feed Price
  unfolding emit_levels
  apply_delta d f = (
    success,
    record f {
      emitted = emit_levels d.asks ask d (emit_levels d.bids bid d f.emitted);
      last_sequence = d.last_update_id;
    },
  )

  -- The first loop of apply_buffered_deltas.
  pub find_bridge : ℕ → ℕ → List (BufferedDelta Price) → Scan Price
  find_bridge snapshot skipped [] = no_bridge skipped
  find_bridge snapshot skipped (d ∷ ds) =
      let rest = find_bridge snapshot (suc skipped) ds in
      if leb d.last_update_id snapshot
      then rest
      else if bridges (next snapshot) d.first_update_id d.last_update_id
      then bridge skipped (d ∷ ds)
      else precedes

  -- The second loop.
  pub apply_all : List (BufferedDelta Price) → Feed Price → Result × Feed Price
  unfolding trigger_resnapshot apply_delta
  apply_all [] f = (success, f)
  apply_all (d ∷ ds) f =
      let (result, applied) = apply_delta d f in
      let rest = apply_all ds applied in
      if not (validate_delta_sequence d.first_update_id d.last_update_id f)
      then (error_sequence_gap, trigger_resnapshot buffered_sequence_gap f)
      else if not (is_success result)
      then (error_book_corrupted, trigger_resnapshot buffered_delta_apply_failed applied)
      else rest

  apply_scanned : Scan Price → Feed Price → Result × Feed Price
  unfolding apply_all
  apply_scanned precedes f = (error_sequence_gap, trigger_resnapshot snapshot_handoff_gap f)
  apply_scanned (no_bridge skipped) f =
      if is_empty f.delta_buffer || skipped == length f.delta_buffer
      then (
        success,
        record f { buffered_skipped = u64 (f.buffered_skipped + skipped); delta_buffer = [] },
      )
      else (error_sequence_gap, trigger_resnapshot snapshot_handoff_missing_bridge f)
  apply_scanned (bridge skipped ds) f =
      let (result, g) = apply_all ds f in
      if is_success result
      then (
        success,
        record g {
          buffered_applied = u64 (g.buffered_applied + length ds);
          buffered_skipped = u64 (g.buffered_skipped + skipped);
          delta_buffer = [];
        },
      )
      else (result, g)

  pub apply_buffered_deltas : ℕ → Feed Price → Result × Feed Price
  unfolding apply_scanned find_bridge
  apply_buffered_deltas snapshot f = apply_scanned (find_bridge snapshot 0 f.delta_buffer) f

  unfoldable pub process_delta : State → BufferedDelta Price → Feed Price → Result × Feed Price
  unfolding apply_delta trigger_resnapshot
  process_delta buffering d f =
      if leb max_buffer_size (length f.delta_buffer)
      then (error_connection_lost, trigger_resnapshot buffer_overflow f)
      else (
        success,
        record f {
          delta_buffer = f.delta_buffer ++ d ∷ [];
          buffer_high_water_mark = max f.buffer_high_water_mark (length (f.delta_buffer ++ d ∷ []));
        },
      )
  process_delta _ d f =
      if leb d.last_update_id f.last_sequence
      then (success, f)
      else if not (validate_delta_sequence d.first_update_id d.last_update_id f)
      then (error_sequence_gap, trigger_resnapshot sequence_gap f)
      else apply_delta d f

  process_depth : Result ⊎ BufferedDelta Price → Feed Price → Result × Feed Price
  unfolding process_delta
  process_depth (inl error) f = (error, f)
  process_depth (inr d) f = process_delta f.state d f

  abbrev trade_flow : Price → Price → Bool → TradeFlow Price
  trade_flow p q is_seller = record {
    last_trade_price = p;
    last_trade_size = q;
    trade_direction = if is_seller then 1 else 0;
  }

  pub process_message : Message Price → Feed Price → Result × Feed Price
  unfolding process_depth parse_delta_message
  process_message (agg_trade p q is_seller) f =
      (success, record f { emitted = emits_trade (trade_flow p q is_seller) ∷ f.emitted })
  process_message (depth_update payload) f = process_depth (parse_delta_message payload) f
  process_message _ f = (success, f)

  -- The checks of process_snapshot on the parsed body, and the snapshot it passes on.
  checksum_holds :
      (List (ParsedLevel Price) → List (ParsedLevel Price) → ℕ) → Snapshot Price → Option ℕ → Bool
  checksum_holds sum snap none = true
  checksum_holds sum snap (some c) = sum snap.bids snap.asks == c

  read_snapshot : SnapshotResponse Price → Option ℕ → Option (Snapshot Price)
  unfolding parse_levels
  read_snapshot r none = none
  read_snapshot r (some id) = some (record {
    sequence = id;
    bids = parse_levels r.bids;
    asks = parse_levels r.asks;
    checksum = r.checksum;
  })

  accept_snapshot :
      (List (ParsedLevel Price) → List (ParsedLevel Price) → ℕ)
      → Option (Snapshot Price)
      → Feed Price
      → Result × Feed Price
  unfolding checksum_holds
  accept_snapshot sum none f = (error_book_corrupted, f)
  accept_snapshot sum (some snap) f =
      if not (checksum_holds sum snap snap.checksum)
      then (error_book_corrupted, f)
      else if is_empty snap.bids || is_empty snap.asks
      then (error_book_corrupted, f)
      else (
        success,
        record f { last_sequence = snap.sequence; emitted = emits_snapshot snap ∷ f.emitted },
      )

  pub process_snapshot :
      (List (ParsedLevel Price) → List (ParsedLevel Price) → ℕ)
      → SnapshotResponse Price
      → Feed Price
      → Result × Feed Price
  unfolding accept_snapshot read_snapshot
  process_snapshot sum r f =
      if r.status == 429 || r.status == 418
      then (error_connection_lost, f)
      else if not (leb 200 r.status && leb r.status 299) || not r.has_body
      then (error_connection_lost, f)
      else if not r.is_json
      then (error_book_corrupted, f)
      else accept_snapshot sum (read_snapshot r r.last_update) f

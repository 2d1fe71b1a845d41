-- ===== src/Feeds/OkxFeed/Handler.antt =====
-- The operations of core/feeds/okx/okx_feed_handler.cpp on the state of `OkxFeed`.
use trading_infrastructure_c.Common.{
  ℕ, Bool, true, false, not, ◌||◌, Option, none, some, List, [], ◌∷◌, ◌++◌, ltb, leb, ◌==◌, length,
  if◌then◌else◌,
}
use trading_infrastructure_c.Common.Int.{ℤ}
use trading_infrastructure_c.Common.Double.{Double}
use trading_infrastructure_c.Orders.ParentPlan.{Side}
use trading_infrastructure_c.Feeds.OkxFeed.{
  Result, success, error_sequence_gap, error_book_corrupted, error_connection_lost, State,
  buffering, streaming, Reason, error_event, missing_data, empty_book, buffered_deltas_failed,
  buffer_overflow, sequence_gap, checksum_mismatch, max_buffer_size, Level, LevelJson, malformed,
  level, BookData, TradeFlow, Message, other, error_message, trades, book_snapshot, book_update,
  Snapshot, Emission, emits_delta, emits_snapshot, emits_trade, emits_error, Feed,
}
use trading_infrastructure_c.Feeds.OkxFeed.Checksum.{apply_local_book_levels, validate_checksum}

abbrev pub is_success : Result → Bool
is_success success = true
is_success _ = false

abbrev pub is_streaming : State → Bool
is_streaming streaming = true
is_streaming _ = false

module _ (D : Double) where
  unfoldable pub trigger_resnapshot : Reason → Feed D → Feed D
  trigger_resnapshot reason f = record f {
    emitted = emits_error reason ∷ f.emitted;
    delta_buffer = [];
    state = buffering;
    force_reconnect = true;
  }

  unfoldable pub validate_delta_sequence : ℕ → ℕ → Feed D → Bool
  validate_delta_sequence seq prev_seq f =
      if not (prev_seq == 0) then prev_seq == f.last_sequence else ltb f.last_sequence seq

  unfoldable pub emit_levels : List (LevelJson D) → Side → ℕ → List (Emission D) → List (Emission D)
  emit_levels [] side seq log = log
  emit_levels (malformed ∷ ls) side seq log = emit_levels ls side seq log
  emit_levels (level l ∷ ls) side seq log = emit_levels ls side seq (
      emits_delta (record {
        side = side;
        price = l.price;
        size = l.size;
        order_count = l.order_count;
        sequence = seq;
      })
      ∷ log)

  unfoldable pub process_delta : BookData D → Feed D → Feed D
  unfolding emit_levels apply_local_book_levels
  process_delta d f =
      let booked = apply_local_book_levels D d (record f { last_sequence = d.seq }) in
      record booked {
        emitted = emit_levels d.asks Side.ask d.seq (emit_levels d.bids Side.bid d.seq f.emitted);
      }

  -- The loop, which a gap or a wrong checksum ends.
  unfoldable pub apply_each : (List ℕ → ℤ) → List (BookData D) → Feed D → Result × Feed D
  unfolding process_delta validate_checksum validate_delta_sequence
  apply_each crc32 [] f = (success, f)
  apply_each crc32 (d ∷ ds) f =
      let skipped = apply_each crc32 ds f in
      let applied = apply_each crc32 ds (process_delta d f) in
      if leb d.seq f.last_sequence
      then skipped
      else if not (validate_delta_sequence d.seq d.prev_seq f)
      then (error_sequence_gap, f)
      else if not (validate_checksum D crc32 d f)
      then (error_book_corrupted, f)
      else applied

  unfoldable pub apply_buffered_deltas : (List ℕ → ℤ) → Feed D → Result × Feed D
  unfolding apply_each
  apply_buffered_deltas crc32 f =
      let (r, applied) = apply_each crc32 f.delta_buffer f in
      (r, record applied { delta_buffer = [] })

  abbrev pub parse_levels : List (LevelJson D) → List (Level D)
  parse_levels [] = []
  parse_levels (malformed ∷ ls) = parse_levels ls
  parse_levels (level l ∷ ls) = l ∷ parse_levels ls

  abbrev pub has_none : List (Level D) → Bool
  has_none [] = true
  has_none (l ∷ ls) = false

  unfoldable pub after_buffered : Result × Feed D → Result × Feed D
  unfolding trigger_resnapshot
  after_buffered (success, f) = (success, record f { state = streaming })
  after_buffered (r, f) = (error_book_corrupted, trigger_resnapshot buffered_deltas_failed f)

  unfoldable pub accept_snapshot : (List ℕ → ℤ) → BookData D → Feed D → Result × Feed D
  unfolding after_buffered apply_buffered_deltas apply_local_book_levels trigger_resnapshot
  accept_snapshot crc32 d f =
      let snap : Snapshot D = record {
        sequence = d.seq;
        bids = parse_levels d.bids;
        asks = parse_levels d.asks;
      } in
      let booked = apply_local_book_levels D d (record f { bids = []; asks = [] }) in
      let taken = record booked {
        last_sequence = d.seq;
        emitted = emits_snapshot snap ∷ f.emitted;
      } in
      if has_none snap.bids || has_none snap.asks
      then (error_book_corrupted, trigger_resnapshot empty_book f)
      else after_buffered (apply_buffered_deltas crc32 taken)

  unfoldable pub process_snapshot : (List ℕ → ℤ) → Option (BookData D) → Feed D → Result × Feed D
  unfolding accept_snapshot trigger_resnapshot
  process_snapshot crc32 none f = (error_book_corrupted, trigger_resnapshot missing_data f)
  process_snapshot crc32 (some d) f = accept_snapshot crc32 d f

  unfoldable pub process_update : (List ℕ → ℤ) → BookData D → Feed D → Result × Feed D
  unfolding process_delta validate_checksum validate_delta_sequence trigger_resnapshot
  process_update crc32 d f =
      if not (is_streaming f.state)
      then (
        success,
        if ltb (length f.delta_buffer) max_buffer_size
            then record f { delta_buffer = f.delta_buffer ++ (d ∷ []) }
            else trigger_resnapshot buffer_overflow f,
      )
      else if not (validate_delta_sequence d.seq d.prev_seq f)
      then (error_sequence_gap, trigger_resnapshot sequence_gap f)
      else if not (validate_checksum D crc32 d f)
      then (error_book_corrupted, trigger_resnapshot checksum_mismatch f)
      else (success, process_delta d f)

  abbrev pub emit_trades : List (TradeFlow D) → List (Emission D) → List (Emission D)
  emit_trades [] log = log
  emit_trades (t ∷ ts) log = emit_trades ts (emits_trade t ∷ log)

  unfoldable pub process_message : (List ℕ → ℤ) → Message D → Feed D → Result × Feed D
  unfolding process_snapshot process_update trigger_resnapshot
  process_message crc32 other f = (success, f)
  process_message crc32 error_message f = (error_connection_lost, trigger_resnapshot error_event f)
  process_message crc32 (trades ts) f = (success, record f { emitted = emit_trades ts f.emitted })
  process_message crc32 (book_snapshot d) f = process_snapshot crc32 d f
  process_message crc32 (book_update d) f = process_update crc32 d f

-- ===== src/Feeds/BookManager/Publishing.antt =====
-- What the book manager puts in the shared file over a history of updates.
use mathlib.Core.Path.{subst}
use trading_infrastructure_c.Common.{
  ℕ, ◌+◌, ◌<◌, ◌≤◌, ◌≡◌, refl, sym, inl, inr, Bool, true, false, not, ◌&&◌, Option, none, some,
  List, [], ◌∷◌, ◌++◌, append-nil, append_assoc, length, length-append, u64_mod, ltb, if◌then◌else◌,
  arith, pick, Bool-cases, both_ways, negated,
}
use trading_infrastructure_c.Common.Int.{ℤ}
use trading_infrastructure_c.Common.Float.{Float}
use trading_infrastructure_c.Books.OrderBook.{
  BookResult, OrderBook, Snapshot, Delta, get_top_levels, get_mid_price,
}
use trading_infrastructure_c.Books.OrderBook.Snapshots.{apply_snapshot}
use trading_infrastructure_c.Books.OrderBook.Deltas.{apply_delta}
use trading_infrastructure_c.Ipc.LobPublisher.{Message, Publisher, is_open, publish}
use trading_infrastructure_c.Ipc.LobPublisher.Rings.{Holds, publish-Holds}
use trading_infrastructure_c.Feeds.BookManager.{
  is_success, Clocks, TradeFlow, TimedSnapshot, TimedDelta, BookManager, message_of, publish_lob,
  inspect_timestamp, wall_ts_ns, after_update, snapshot_handler, delta_handler, trade_handler,
}

module _ (F : Float) (sum : Snapshot F → ℕ) where
  pub data Event : Type 0 where
    snapshot : TimedSnapshot F → Clocks → Event
    delta : TimedDelta F → Clocks → Event
    trade : TradeFlow F → Clocks → Event

  unfoldable pub handle : Event → BookManager F → BookManager F
  unfolding snapshot_handler delta_handler trade_handler
  handle (Event.snapshot s c) b = snapshot_handler F sum s c b
  handle (Event.delta d c) b = delta_handler F d c b
  handle (Event.trade t c) b = trade_handler F t c b

  pub run : List Event → BookManager F → BookManager F
  unfolding handle
  run [] b = b
  run (e ∷ es) b = run es (handle e b)

  -- The specification: the events for which the book answers SUCCESS, a delta that it passes over as old
  -- among them, and one message for each, of the book as that event left it.
  abbrev pub updates : Event → BookManager F → Bool
  updates (Event.snapshot s c) b = is_success (apply_snapshot F sum s.snapshot b.book).0
  updates (Event.delta d c) b = is_success (apply_delta F d.delta b.book).0
  updates (Event.trade t c) b = false

  abbrev pub time_of : Event → ℤ
  time_of (Event.snapshot s c) = wall_ts_ns s.timestamp_local_ns c
  time_of (Event.delta d c) = wall_ts_ns d.timestamp_local_ns c
  time_of (Event.trade t c) = c.wall_now_ns

  abbrev pub expected : ℤ → BookManager F → Message F
  expected timestamp_ns b = record {
    exchange = b.exchange;
    symbol = b.symbol;
    timestamp_ns = timestamp_ns;
    mid_price = get_mid_price F b.book;
    bids = (get_top_levels F 10 b.book).0;
    asks = (get_top_levels F 10 b.book).1;
    trade_direction = b.last_trade_flow.trade_direction;
  }

  message_of-expected : (t : ℤ) (b : BookManager F) → message_of F t b ≡ expected t b
  unfolding message_of
  message_of-expected t b = refl

  pub messages : List Event → BookManager F → List (Message F)
  unfolding handle
  messages [] b = []
  messages (e ∷ es) b =
      let rest = messages es (handle e b) in
      if updates e b then expected (time_of e) (handle e b) ∷ rest else rest

  -- The publisher of `b` holds the messages `ms`.
  abbrev pub Feeds : BookManager F → List (Message F) → Type 0
  Feeds b ms = (p : Publisher F) × (b.publisher ≡ some p) × Holds F p ms

  publish_lob_open :
      (time : ℤ) (b : BookManager F) (p : Publisher F)
      → b.publisher ≡ some p
      → p.mapped ≡ true
      → ((publish_lob F time b).publisher ≡ some (publish F (message_of F time b) p))
        × (expected time (publish_lob F time b) ≡ message_of F time b)
  unfolding publish_lob
  publish_lob_open time b p h m = rw (h, m) (refl, sym (message_of-expected time b))

  after_update_open :
      (local exchange : ℤ) (c : Clocks) (b : BookManager F) (ms : List (Message F))
      → length ms + 1 < u64_mod
      → Feeds b ms
      → Feeds
          (after_update F local exchange c b)
          (ms ++ expected (wall_ts_ns local c) (after_update F local exchange c b) ∷ [])
  unfolding after_update inspect_timestamp
  after_update_open local exchange c b ms l (p, h, k) =
      let applied : BookManager F = record (inspect_timestamp F (wall_ts_ns local c) exchange b) {
        last_update_steady_ns = c.steady_now_ns;
      } in
      let (to, same) = publish_lob_open (wall_ts_ns local c) applied p h k.mapped in
      (
        publish F (message_of F (wall_ts_ns local c) applied) p,
        to,
        subst
            (λ m. Holds F (publish F (message_of F (wall_ts_ns local c) applied) p) (ms ++ m ∷ []))
            (sym same) (publish-Holds F _ p ms l k),
      )

  -- One event.
  abbrev told : Bool → Message F → List (Message F)
  told b m = if b then m ∷ [] else []

  handle-Feeds :
      (e : Event) (b : BookManager F) (ms : List (Message F))
      → length ms + 1 < u64_mod
      → Feeds b ms
      → Feeds (handle e b) (ms ++ told (updates e b) (expected (time_of e) (handle e b)))
  unfolding handle snapshot_handler delta_handler trade_handler
  handle-Feeds (Event.trade t c) b ms l h = rw (append-nil ms) h
  handle-Feeds (Event.snapshot s c) b ms l h =
      elim (Bool-cases (is_success (apply_snapshot F sum s.snapshot b.book).0)) [
        | inl e ↦ rw e (
            after_update_open s.timestamp_local_ns s.timestamp_exchange_ns c
              (record b { book = (apply_snapshot F sum s.snapshot b.book).1 }) ms l h)
        | inr e ↦ rw (e, append-nil ms) h
      ]
  handle-Feeds (Event.delta d c) b ms l h =
      elim (Bool-cases (is_success (apply_delta F d.delta b.book).0)) [
        | inl e ↦ rw e (
            after_update_open d.timestamp_local_ns d.timestamp_exchange_ns c
              (record b { book = (apply_delta F d.delta b.book).1 }) ms l h)
        | inr e ↦ rw (e, append-nil ms) h
      ]

  told-append :
      (c : Bool) (m : Message F) (ms rest : List (Message F))
      → ms ++ (if c then m ∷ rest else rest) ≡ (ms ++ told c m) ++ rest
  told-append true m ms rest = sym (append_assoc ms (m ∷ []) rest)
  told-append false m ms rest = rw (append-nil ms)

  length-told :
      (c : Bool) (m : Message F) (ms : List (Message F)) → length (ms ++ told c m) ≤ length ms + 1
  length-told true m ms = omega (arith, length-append ms (m ∷ []))
  length-told false m ms = omega (arith, length-append ms [])

  -- Let the manager's publisher have written the messages `ms` to its file, fewer than 2^64 with the events
  -- that follow. After any history of snapshots, deltas and trades the header counts `ms` and one message
  -- for each snapshot and delta for which the book answered SUCCESS, a delta that the book passed over
  -- as old among them, and none for anything else; and each of the last 10000 of these stands in
  -- its slot: the top ten levels of each side and the mid price of the book after that update, with its
  -- exchange, symbol and time and the direction of the last trade.
  pub run-Feeds :
      (es : List Event) (b : BookManager F) (ms : List (Message F))
      → length ms + length es < u64_mod
      → Feeds b ms
      → Feeds (run es b) (ms ++ messages es b)
  unfolding run messages
  run-Feeds [] b ms l h = rw (append-nil ms) h
  run-Feeds (e ∷ es) b ms l h =
      let m = expected (time_of e) (handle e b) in
      rw (told-append (updates e b) m ms (messages es (handle e b))) (
        run-Feeds es (handle e b) (ms ++ told (updates e b) m)
          (omega (arith, length-told (updates e b) m ms)) (handle-Feeds e b ms (omega arith) h))

  after_update_lem :
      (local exchange : ℤ) (c : Clocks) (b : BookManager F)
      → ((after_update F local exchange c b).book ≡ b.book)
        × ((after_update F local exchange c b).last_update_steady_ns ≡ c.steady_now_ns)
  unfolding after_update publish_lob inspect_timestamp
  after_update_lem local exchange c b = to b.publisher
    where
      applied : BookManager F
      applied = record (inspect_timestamp F (wall_ts_ns local c) exchange b) {
        last_update_steady_ns = c.steady_now_ns;
      }

      Kept : BookManager F → Type 0
      Kept a = (a.book ≡ b.book) × (a.last_update_steady_ns ≡ c.steady_now_ns)

      to :
          (o : Option (Publisher F))
          → Kept (elim o [
            | none ↦ applied
            | some p ↦ if not (is_open F p) then applied else record applied {
              publisher = some (publish F (message_of F (wall_ts_ns local c) applied) p);
            }
          ])
      to none = (refl, refl)
      to (some p) = pick Kept (not p.mapped) _ _ (λ _. (refl, refl)) (λ _. (refl, refl))

  apply_delta_stale :
      (d : Delta F) (b : OrderBook F)
      → b.initialized ≡ true
      → F.double.lt d.size F.double.zero ≡ false
      → 0 < d.sequence
      → d.sequence < b.sequence
      → apply_delta F d b ≡ (BookResult.success, b)
  unfolding apply_delta
  apply_delta_stale d b i z p q =
      pick Same (not b.initialized) _ _ (λ e. absurd (both_ways i (negated _ e)))
        (λ _.
          pick Same (F.double.lt d.size F.double.zero) _ _ (λ e. absurd (both_ways e z))
            (λ _.
              pick Same (ltb 0 d.sequence && ltb d.sequence b.sequence) _ _ (λ _. refl)
                (λ e. absurd (both_ways (ground arith) e))))
    where
      Same : BookResult × OrderBook F → Type 0
      Same r = r ≡ (BookResult.success, b)

  -- A delta older than an initialised book leaves the book as it is, and yet the time of the last update
  -- becomes the present: the book looks fresh.
  pub stale_delta_looks_fresh :
      (d : TimedDelta F) (c : Clocks) (b : BookManager F)
      → b.book.initialized ≡ true
      → F.double.lt d.delta.size F.double.zero ≡ false
      → 0 < d.delta.sequence
      → d.delta.sequence < b.book.sequence
      → ((delta_handler F d c b).book ≡ b.book)
        × ((delta_handler F d c b).last_update_steady_ns ≡ c.steady_now_ns)
  unfolding delta_handler
  stale_delta_looks_fresh d c b i z p q =
      subst Kept (sym (apply_delta_stale d.delta b.book i z p q))
        (after_update_lem d.timestamp_local_ns d.timestamp_exchange_ns c b)
    where
      after : BookResult × OrderBook F → BookManager F
      after (result, book) =
          if is_success result
          then after_update F d.timestamp_local_ns d.timestamp_exchange_ns c
              (record b { book = book })
          else record b { book = book }

      Kept : BookResult × OrderBook F → Type 0
      Kept r = ((after r).book ≡ b.book) × ((after r).last_update_steady_ns ≡ c.steady_now_ns)

-- ===== src/Feeds/Examples.antt =====
-- The theorems on the feed handler at concrete deltas.
use trading_infrastructure_c.Common.{ℕ, ◌<◌, ◌≤◌, refl, List, [], ◌∷◌, false, none}
use trading_infrastructure_c.Feeds.BinanceFeed.{State, streaming, buffering, BufferedDelta, Feed}
use trading_infrastructure_c.Feeds.BinanceFeed.Handler.{apply_buffered_deltas, process_delta}
use trading_infrastructure_c.Feeds.BinanceFeed.Handler.Sequence.{
  Covers, Any, stream, no_update_missed,
}
use trading_infrastructure_c.Feeds.BinanceFeed.Handler.Handoff.{Handed, handoff_complete}

abbrev delta : ℕ → ℕ → BufferedDelta ℕ
delta first last = record {
  first_update_id = first;
  last_update_id = last;
  timestamp_exchange_ns = 0;
  bids = record { price = 100; size = 1 } ∷ [];
  asks = [];
}

abbrev feed : State → List (BufferedDelta ℕ) → Feed ℕ
feed state buffer = record {
  state = state;
  last_sequence = 10;
  delta_buffer = buffer;
  reconnect_requested = false;
  buffer_high_water_mark = 0;
  buffered_applied = 0;
  buffered_skipped = 0;
  resync_count = 0;
  last_resync_reason = none;
  emitted = [];
}

abbrev deltas : List (BufferedDelta ℕ)
deltas = delta 8 10 ∷ delta 9 12 ∷ delta 13 15 ∷ []

no_update_missed_example :
    (10 ≤ (stream deltas (feed streaming [])).last_sequence)
    × ((id : ℕ)
        → 10 < id
        → id ≤ (stream deltas (feed streaming [])).last_sequence
        → Any (Covers id) deltas)
unfolding stream process_delta
no_update_missed_example = no_update_missed deltas (feed streaming []) refl refl

handoff_complete_example :
    Handed (feed buffering deltas) deltas (apply_buffered_deltas 10 (feed buffering deltas))
handoff_complete_example = handoff_complete (feed buffering deltas)

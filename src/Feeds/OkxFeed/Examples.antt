-- ===== src/Feeds/OkxFeed/Examples.antt =====
-- The theorems on the OKX feed at a concrete stream, over whole numbers for `double`.
use trading_infrastructure_c.Common.{◌≡◌, refl, ℕ, true, false, List, [], ◌∷◌, none, some}
use trading_infrastructure_c.Common.Int.{ℤ, pos}
use trading_infrastructure_c.Common.Whole.{whole}
use trading_infrastructure_c.Feeds.OkxFeed.{
  State, streaming, buffering, LevelJson, level, BookData, Feed,
}
use trading_infrastructure_c.Feeds.OkxFeed.Handler.{is_success, is_streaming, process_snapshot}
use trading_infrastructure_c.Feeds.OkxFeed.Chain.{
  run, deliver, IsChain, Handed, taken, run-IsChain, process_snapshot-Handed,
}

-- A checksum for the examples: the first byte of the text.
abbrev sum : List ℕ → ℤ
sum [] = pos 0
sum (c ∷ cs) = pos c

abbrev quote : ℕ → ℕ → LevelJson whole
quote p n = level (record {
  price = pos p;
  size = pos n;
  price_text = p ∷ [];
  size_text = n ∷ [];
  order_count = 1;
})

abbrev update : ℕ → ℕ → BookData whole
update seq prev = record {
  seq = seq;
  prev_seq = prev;
  checksum = none;
  bids = quote 57 4 ∷ [];
  asks = quote 58 0 ∷ [];
}

-- The best bid is 57 after this update, which its checksum says.
abbrev summed : BookData whole
summed = record (update 9 7) { checksum = some (pos 57) }

abbrev feed : State → Feed whole
feed s = record {
  state = s;
  last_sequence = 7;
  delta_buffer = update 6 5 ∷ update 11 10 ∷ [];
  force_reconnect = false;
  bids = [];
  asks = [];
  emitted = [];
}

stays_streaming :
    is_streaming (run whole sum (summed ∷ update 10 9 ∷ []) (feed streaming)).state ≡ true
unfolding run
stays_streaming = refl

run-IsChain_example :
    IsChain whole sum (summed ∷ update 10 9 ∷ []) (feed streaming)
    × (run whole sum (summed ∷ update 10 9 ∷ []) (feed streaming)
        ≡ deliver whole sum (summed ∷ update 10 9 ∷ []) (feed streaming))
run-IsChain_example =
    run-IsChain whole sum (summed ∷ update 10 9 ∷ []) (feed streaming) refl stays_streaming

abbrev full : BookData whole
full = record (update 10 0) { asks = quote 60 3 ∷ [] }

accepted : is_success (process_snapshot whole sum (some full) (feed buffering)).0 ≡ true
unfolding process_snapshot
accepted = refl

process_snapshot-Handed_example :
    (g : Feed whole) × (Handed whole sum
        (feed buffering).delta_buffer
        (taken whole sum full (feed buffering))
        g
      × ((process_snapshot whole sum (some full) (feed buffering)).1
          ≡ record g { state = streaming; delta_buffer = [] }))
process_snapshot-Handed_example = process_snapshot-Handed whole sum full (feed buffering) accepted

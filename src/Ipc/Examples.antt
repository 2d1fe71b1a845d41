-- ===== src/Ipc/Examples.antt =====
-- The theorems on the publisher and the reader at concrete histories, over whole numbers for `double`.
use trading_infrastructure_c.Common.{
  ℕ, zero, suc, ◌+◌, refl, true, false, List, [], ◌∷◌, none, update, arith,
}
use trading_infrastructure_c.Common.Int.{pos}
use trading_infrastructure_c.Common.Whole.{whole_float}
use trading_infrastructure_c.Connectors.OrderMap.{Exchange}
use trading_infrastructure_c.Ipc.LobPublisher.{Message, Publisher, fresh_file}
use trading_infrastructure_c.Ipc.LobPublisher.Rings.{Call, run, log, Represents, run-Represents}
use trading_infrastructure_c.Ipc.SignalReader.{Memory, Round, AlphaSignalReader, read}
use trading_infrastructure_c.Ipc.SignalReader.Seqlock.{Step, Reach, IsRun}
use trading_infrastructure_c.Ipc.SignalReader.Gates.{IsRead, read-IsRead}

abbrev message : Message whole_float
message = record {
  exchange = Exchange.okx;
  symbol = 66 ∷ 84 ∷ 67 ∷ [];
  timestamp_ns = pos 12;
  mid_price = pos 100;
  bids = record { price = pos 99; size = pos 3; order_count = 2 } ∷ [];
  asks = record { price = pos 101; size = pos 4; order_count = 1 } ∷ [];
  trade_direction = 255;
}

abbrev closed_publisher : Publisher whole_float
closed_publisher = record { fd = false; mapped = false; file = fresh_file whole_float }

-- An open that fails, one that succeeds, and two messages.
abbrev history : List (Call whole_float)
history =
    Call.opened (record { opens = true; truncates = false; maps = true })
    ∷ Call.published message
    ∷ Call.opened (record { opens = true; truncates = true; maps = true })
    ∷ Call.published message
    ∷ Call.published (record message { timestamp_ns = pos 13 })
    ∷ []

run-Represents_example :
    Represents whole_float (run whole_float history closed_publisher) (log whole_float history none)
run-Represents_example = run-Represents whole_float history closed_publisher (omega arith) refl refl

abbrev before : Memory
before = record { seq = 2; words = λ i. i + 10 }

abbrev under_way : Memory
under_way = record { seq = 3; words = λ i. i + 10 }

abbrev stored : Memory
stored = record { seq = 3; words = update (λ i. i + 10) 0 77 }

abbrev after : Memory
after = record { seq = 4; words = update (λ i. i + 10) 0 77 }

-- A write begins and stores a word during the first round, and is done before the second.
abbrev rounds : ℕ → Round
rounds zero = record { at_seq1 = before; at_word = λ i. stored; at_seq2 = after }
rounds (suc j) = record { at_seq1 = after; at_word = λ i. after; at_seq2 = after }

rounds-IsRun : (j : ℕ) → IsRun (rounds j)
rounds-IsRun zero = λ i l. (
  Reach.next (Reach.next {n = before} {o = under_way} Reach.here (Step.begin refl refl))
      (Step.store 0 77 refl refl),
  Reach.next {n = stored} Reach.here (Step.commit refl refl),
)
rounds-IsRun (suc j) = λ i l. (Reach.here, Reach.here)

abbrev reader : AlphaSignalReader whole_float pos pos
reader = record {
  mapped = true;
  signal_min_bps = pos 3;
  risk_max = pos 9;
  stale_ns = pos 100;
  warn_throttle_ns = pos 1_000;
  last_warn_ns = pos 0;
  ipc_warn_count = 0;
}

read-IsRead_example : IsRead whole_float pos pos rounds (read whole_float pos pos rounds reader)
read-IsRead_example = read-IsRead whole_float pos pos rounds reader refl rounds-IsRun

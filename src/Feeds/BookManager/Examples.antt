-- ===== src/Feeds/BookManager/Examples.antt =====
-- The theorems on the book manager at a concrete book, over whole numbers for `double`.
use trading_infrastructure_c.Common.{ℕ, ◌≡◌, refl, true, List, [], ◌∷◌, some, arith}
use trading_infrastructure_c.Common.Int.{pos}
use trading_infrastructure_c.Common.Whole.{whole_float}
use trading_infrastructure_c.Connectors.OrderMap.{Exchange}
use trading_infrastructure_c.Orders.ParentPlan.{Side}
use trading_infrastructure_c.Books.OrderBook.{Snapshot, OrderBook, Cell, blank_cell}
use trading_infrastructure_c.Ipc.LobPublisher.{fresh_file}
use trading_infrastructure_c.Feeds.BookManager.{
  Clocks, TradeFlow, TimedDelta, BookManager, delta_handler,
}
use trading_infrastructure_c.Feeds.BookManager.Publishing.{
  Event, run, messages, Feeds, run-Feeds, stale_delta_looks_fresh,
}

abbrev filled : Cell whole_float
filled = record { size = pos 5; order_count = 1 }

-- A bid at 102 and an ask at 103.
abbrev book : OrderBook whole_float
book = record {
  tick_size = pos 1;
  max_levels = 4;
  active_levels = 4;
  base_price = pos 100;
  sequence = 7;
  initialized = true;
  bids = blank_cell whole_float ∷ blank_cell whole_float ∷ filled ∷ blank_cell whole_float ∷ [];
  asks = blank_cell whole_float ∷ blank_cell whole_float ∷ blank_cell whole_float ∷ filled ∷ [];
  out_of_range_streak = 0;
}

abbrev no_trade : TradeFlow whole_float
no_trade = record {
  last_trade_price = pos 0;
  last_trade_size = pos 0;
  recent_traded_volume = pos 0;
  trade_direction = 255;
}

abbrev manager : BookManager whole_float
manager = record {
  symbol = 66 ∷ 84 ∷ 67 ∷ [];
  exchange = Exchange.okx;
  book = book;
  last_update_steady_ns = pos 0;
  publisher = some (record { fd = true; mapped = true; file = fresh_file whole_float });
  last_publish_local_ts_ns = pos 0;
  last_publish_exchange_ts_ns = pos 0;
  timestamp_issue_count = 0;
  last_trade_flow = no_trade;
  trade_window_start_ns = pos 0;
  trade_window_volume = pos 0;
}

abbrev clocks : Clocks
clocks = record { wall_now_ns = pos 1_000; steady_now_ns = pos 50 }

abbrev larger_bid : TimedDelta whole_float
larger_bid = record {
  delta = record { side = Side.bid; price = pos 101; size = pos 9; order_count = 3; sequence = 8 };
  timestamp_local_ns = pos 900;
  timestamp_exchange_ns = pos 880;
}

abbrev stale : TimedDelta whole_float
stale = record {
  delta = record { side = Side.bid; price = pos 101; size = pos 1; order_count = 1; sequence = 3 };
  timestamp_local_ns = pos 910;
  timestamp_exchange_ns = pos 890;
}

abbrev no_sum : Snapshot whole_float → ℕ
no_sum s = 0

abbrev history : List (Event whole_float no_sum)
history =
    Event.delta larger_bid clocks
    ∷ Event.trade (record no_trade { last_trade_size = pos 2; trade_direction = 1 }) clocks
    ∷ Event.delta stale clocks
    ∷ []

manager-Feeds : Feeds whole_float no_sum manager []
manager-Feeds = (
  record { fd = true; mapped = true; file = fresh_file whole_float },
  refl,
  record { fd = refl; mapped = refl; count = refl; reads = λ seq d l w. absurd (omega arith) },
)

run-Feeds_example :
    Feeds whole_float no_sum
      (run whole_float no_sum history manager)
      (messages whole_float no_sum history manager)
run-Feeds_example = run-Feeds whole_float no_sum history manager [] (omega arith) manager-Feeds

stale_delta_looks_fresh_example :
    ((delta_handler whole_float stale clocks manager).book ≡ book)
    × ((delta_handler whole_float stale clocks manager).last_update_steady_ns ≡ pos 50)
stale_delta_looks_fresh_example =
    stale_delta_looks_fresh whole_float no_sum stale clocks manager refl refl (omega arith)
      (omega arith)

-- ===== src/Portfolio/Examples.antt =====
-- The theorems on the ledger and the order manager at concrete states.
use trading_infrastructure_c.Common.{◌≡◌, refl, true, List, [], ◌∷◌, All, arith}
use trading_infrastructure_c.Common.Int.{pos}
use trading_infrastructure_c.Common.Whole.{whole}
use trading_infrastructure_c.Connectors.OrderMap.{Exchange}
use trading_infrastructure_c.Orders.ParentPlan.{Side}
use trading_infrastructure_c.Portfolio.PositionLedger.{Order, Ledger, blank_venue}
use trading_infrastructure_c.Portfolio.PositionLedger.Snapshot.{
  PositionLedgerSnapshot, snapshot, AddsUp, snapshot-AddsUp,
}
use trading_infrastructure_c.Portfolio.PositionLedger.Age.{ZeroApart, HasAge, Call, run, run-HasAge}
use trading_infrastructure_c.Connectors.LiveConnector.{ConnectorResult}
use trading_infrastructure_c.Orders.SpscQueue.{SpscQueue}
use trading_infrastructure_c.Orders.SpscQueue.Refines.{Represents}
use trading_infrastructure_c.Portfolio.OrderManager.{
  ManagedOrder, FillUpdate, OrderManager, OrderState, placed, blank_slot, submit, drain_fills,
}
use trading_infrastructure_c.Portfolio.OrderManager.Drain.{
  Outcome, apply_each, drain_fills-apply_each, submit-Outcome,
}

whole-ZeroApart : ZeroApart whole
whole-ZeroApart = record {
  itself = refl;
  positive = λ x h. ground arith;
  negative = λ x h. ground arith;
}

abbrev two_venues : Ledger whole
two_venues = record { venues = blank_venue whole ∷ blank_venue whole ∷ []; symbol = [] }

abbrev buy : Order whole
buy = record {
  client_order_id = 1;
  symbol = 65 ∷ [];
  exchange = Exchange.okx;
  side = Side.bid;
  quantity = pos 10;
}

abbrev history : List (Call whole whole-ZeroApart)
history =
    Call.submitted buy
    ∷ Call.filled 5 buy (pos 4) (pos 100)
    ∷ Call.filled 6 (record buy { side = Side.ask }) (pos 4) (pos 110)
    ∷ []

run-HasAge_example :
    All (HasAge whole whole-ZeroApart) (run whole whole-ZeroApart two_venues history).venues
run-HasAge_example = run-HasAge whole whole-ZeroApart two_venues history (refl, (refl, tt))

abbrev no_slot : ManagedOrder whole
no_slot = blank_slot whole

abbrev desk : OrderManager whole
desk = record {
  next_id = 1;
  slots = record (placed whole buy) { state = OrderState.opened } ∷ no_slot ∷ [];
  position = pos 0;
  ledger = two_venues;
  fills_reported = [];
}

abbrev full_fill : FillUpdate whole
full_fill = record {
  client_order_id = 1;
  fill_price = pos 100;
  fill_qty = pos 10;
  cumulative_filled_qty = pos 10;
  avg_fill_price = pos 100;
  new_state = OrderState.filled;
}

abbrev one_fill : SpscQueue (FillUpdate whole)
one_fill = record { capacity = 128; write = 1; read = 0; buf = λ i. full_fill }

one_fill-Represents : Represents one_fill (full_fill ∷ [])
one_fill-Represents = record {
  two_slots = omega arith;
  read_range = omega arith;
  write_place = refl;
  room = omega arith;
  holds = (refl, tt);
}

drain_fills-apply_each_example :
    ((drain_fills whole 5 7 one_fill desk).1 ≡ apply_each whole 7 (full_fill ∷ []) desk)
    × Represents (drain_fills whole 5 7 one_fill desk).0 []
drain_fills-apply_each_example =
    drain_fills-apply_each whole 5 7 one_fill (full_fill ∷ []) desk one_fill-Represents
      (omega arith)

submit-Outcome_example :
    Outcome whole
      (λ o. ConnectorResult.ok)
      buy
      desk
      (submit whole (λ o. ConnectorResult.ok) buy desk)
submit-Outcome_example = submit-Outcome whole (λ o. ConnectorResult.ok) buy desk

-- A snapshot of two venues into an object that held a position of 5.
abbrev held_before : PositionLedgerSnapshot whole
held_before = record {
  symbol = [];
  global_position = pos 5;
  global_avg_entry_price = pos 0;
  realized_pnl = pos 0;
  unrealized_pnl = pos 0;
  pending_bid_qty = pos 0;
  pending_ask_qty = pos 0;
  mid_price = pos 0;
  oldest_inventory_age_ms = pos 0;
  venue_count = 0;
  venues = [];
}

abbrev long_and_idle : Ledger whole
long_and_idle = record {
  venues = record (blank_venue whole) { active = true; position = pos 2 } ∷ blank_venue whole ∷ [];
  symbol = [];
}

snapshot-AddsUp_example :
    AddsUp whole held_before long_and_idle.venues (snapshot whole 10 held_before long_and_idle)
snapshot-AddsUp_example = snapshot-AddsUp whole 10 held_before long_and_idle

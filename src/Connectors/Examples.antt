-- ===== src/Connectors/Examples.antt =====
-- The theorems on the connectors at concrete journals, maps and venues.
use trading_infrastructure_c.Common.{
  ◌≡◌, refl, List, [], ◌∷◌, true, false, none, some, if◌then◌else◌, ◌==◌, arith,
}
use trading_infrastructure_c.Connectors.Journal.{
  submit, cancel, recover, lookup, begin, find_or_create, find_slot, free_slot,
}
use trading_infrastructure_c.Connectors.Journal.Crash.{
  SameDecision, empty_journal, empty-Consistent, crash_keeps_decisions,
}
use trading_infrastructure_c.Connectors.Journal.Crash
use trading_infrastructure_c.Common.Slots.{find_index}
use trading_infrastructure_c.Connectors.OrderMap.{
  Exchange, OrderMap, blank_entry, get, upsert, new_entry, find, find_free_slot,
}
use trading_infrastructure_c.Connectors.OrderMap.Laws.{get-upsert}
use trading_infrastructure_c.Connectors.LiveConnector.{
  ConnectorResult, Order, submits, Venue, Connector, submit_order, with_retries, reconcile,
}
use trading_infrastructure_c.Connectors.LiveConnector.Submission.{
  IsCleanVenue, submit_once, submit_once_after_restart,
}
use trading_infrastructure_c.Connectors.LiveConnector.Retries.{Attempts, with_retries-Attempts}

abbrev history : List Crash.Event
history =
    Crash.Event.begins submit 1 0
    ∷ Crash.Event.acks submit 1 (some (65 ∷ [])) 0
    ∷ Crash.Event.crashes
    ∷ Crash.Event.begins cancel 1 0
    ∷ []

crash_keeps_decisions_example :
    let j = Crash.run empty_journal history in
    SameDecision (lookup submit 1 j) (lookup submit 1 (recover j))
crash_keeps_decisions_example =
    crash_keeps_decisions history submit 1 (tt, ((refl, tt), (tt, (tt, tt))))

abbrev two_slots : OrderMap
two_slots = blank_entry ∷ blank_entry ∷ []

abbrev full : OrderMap
full = new_entry 5 none Exchange.okx none ∷ []

get-upsert_example : get 8 (upsert 7 (some (65 ∷ [])) Exchange.okx (some (66 ∷ [])) two_slots).1 ≡ (
    if 7 == 8
    then some (new_entry 7 (some (65 ∷ [])) Exchange.okx (some (66 ∷ [])))
    else get 8 two_slots)
unfolding upsert find find_index find_free_slot
get-upsert_example = get-upsert 7 8 (some (65 ∷ [])) Exchange.okx (some (66 ∷ [])) two_slots refl

-- A venue that is rate limited once and then accepts.
abbrev venue : Venue
venue (call ∷ []) = record { result = ConnectorResult.error_rate_limit; venue_order_id = [] }
venue _ = record { result = ConnectorResult.ok; venue_order_id = 65 ∷ [] }

abbrev order : Order
order = record { client_order_id = 7; symbol = 66 ∷ [] }

abbrev connector : Connector
connector = record {
  exchange = Exchange.binance;
  has_passphrase = false;
  max_attempts = 3;
  connected = true;
  journal = empty_journal;
  orders = two_slots;
  calls = [];
}

with_retries-Attempts_example : Attempts venue 3 (submits order) [] (
  (with_retries venue (submits order) connector).0,
  (with_retries venue (submits order) connector).1.calls,
)
with_retries-Attempts_example = with_retries-Attempts venue (submits order) connector (omega arith)

submitted : (submit_order venue order connector).0 ≡ ConnectorResult.ok
unfolding submit_order begin find_or_create find_slot free_slot find_index upsert find
    find_free_slot
submitted = refl

submit_once_example :
    let c = (submit_order venue order connector).1 in (submit_order venue order c).1.calls ≡ c.calls
submit_once_example = submit_once venue order order connector refl submitted

venue-IsCleanVenue : IsCleanVenue venue
venue-IsCleanVenue [] = (refl, tt)
venue-IsCleanVenue (call ∷ []) = tt
venue-IsCleanVenue (call ∷ next ∷ log) = (refl, tt)

submit_once_after_restart_example :
    (submit_order venue order (reconcile (submit_order venue order connector).1).1).1.calls
    ≡ (submit_order venue order connector).1.calls
submit_once_after_restart_example =
    submit_once_after_restart venue order order connector venue-IsCleanVenue refl empty-Consistent
      submitted

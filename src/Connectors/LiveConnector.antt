-- ===== src/Connectors/LiveConnector.antt =====
-- core/execution/common/connectors/live_connector_base.hpp, but for its signatures and headers. The
-- venue behind the five virtual calls is a parameter: a function from the calls made so far, the
-- latest first, to its answer, a result and an order id. Of an `Order` the base class reads the id
-- and the symbol. Every journal record is written.
pub mod Retries
pub mod Submission
use trading_infrastructure_c.Common.{
  ℕ, zero, suc, Bool, true, false, not, ◌&&◌, ◌||◌, Option, none, some, List, [], ◌∷◌, leb, ◌==◌,
  if◌then◌else◌,
}
use trading_infrastructure_c.Connectors.Journal.{
  Journal, JournalDecision, JournalState, VenueId, submit, cancel, replace, is_in_flight, is_acked,
  already_acked, should_send_to_venue, begin, ack, fail, lookup, recover,
}
use trading_infrastructure_c.Connectors.OrderMap.{
  Exchange, OrderMap, VenueOrderEntry, get, upsert, erase, clear,
}

pub data ConnectorResult : Type 0 where
  ok error_rate_limit error_insufficient_funds error_invalid_order error_rest_failure auth_failed
        error_unknown :
      ConnectorResult
  error_futures : ℕ → ConnectorResult

abbrev pub is_ok : ConnectorResult → Bool
is_ok ConnectorResult.ok = true
is_ok _ = false

abbrev pub is_retryable : ConnectorResult → Bool
is_retryable ConnectorResult.error_rate_limit = true
is_retryable ConnectorResult.error_rest_failure = true
is_retryable ConnectorResult.error_unknown = true
is_retryable _ = false

pub record Order : Type 0 where
  pub client_order_id : ℕ
  pub symbol : List ℕ

pub data VenueCall : Type 0 where
  submits : Order → VenueCall
  cancels : VenueOrderEntry → VenueCall
  replaces : VenueOrderEntry → Order → VenueCall
  queries : VenueOrderEntry → VenueCall
  cancels_all : List ℕ → VenueCall

pub record Answer : Type 0 where
  pub result : ConnectorResult
  pub venue_order_id : VenueId

abbrev pub Venue : Type 0
Venue = List VenueCall → Answer

pub record Connector : Type 0 where
  pub exchange : Exchange
  pub has_passphrase : Bool
  pub max_attempts : ℕ
  pub connected : Bool
  pub journal : Journal
  pub orders : OrderMap
  pub calls : List VenueCall

abbrev pub is_okx : Exchange → Bool
is_okx Exchange.okx = true
is_okx _ = false

unfoldable pub connect : Connector → ConnectorResult × Connector
connect c =
    if is_okx c.exchange && not c.has_passphrase
    then (ConnectorResult.auth_failed, record c { connected = false })
    else (ConnectorResult.ok, record c { connected = true })

unfoldable pub disconnect : Connector → Connector
disconnect c = record c { connected = false }

unfoldable pub classify_http_error : ℕ → ConnectorResult
classify_http_error status =
    if status == 401 || status == 403
    then ConnectorResult.auth_failed
    else if status == 429
    then ConnectorResult.error_rate_limit
    else if leb 500 status
    then ConnectorResult.error_rest_failure
    else if leb 400 status
    then ConnectorResult.error_invalid_order
    else ConnectorResult.error_unknown

-- A venue id that stands for an order: neither empty nor the journal's "-".
abbrev pub is_order_id : VenueId → Bool
is_order_id [] = false
is_order_id (b ∷ bs) = not (b == 45)

module _ (venue : Venue) where
  -- The loop of `with_retries`: `n` attempts are left. The log of calls comes back.
  pub retry : ℕ → VenueCall → List VenueCall → Answer × List VenueCall
  retry zero call log =
      (record { result = ConnectorResult.error_unknown; venue_order_id = [] }, log)
  retry (suc n) call log =
      let answer = venue (call ∷ log) in
      let rest = retry n call (call ∷ log) in
      if is_ok answer.result || not (is_retryable answer.result) || n == 0
      then (answer, call ∷ log)
      else rest

  pub with_retries : VenueCall → Connector → Answer × Connector
  unfolding retry
  with_retries call c =
      let (answer, log) = retry c.max_attempts call c.calls in (answer, record c { calls = log })

  -- The order's id now stands for this venue order; a full map is an error.
  pub map_order : Order → VenueId → Connector → ConnectorResult × Connector
  map_order o id c =
      let (fits, m) = upsert o.client_order_id (some id) c.exchange (some o.symbol) c.orders in
      (if fits then ConnectorResult.ok else ConnectorResult.error_unknown, record c { orders = m })

  pub submit_answered : Order → Answer → Connector → ConnectorResult × Connector
  unfolding map_order
  submit_answered o answer c =
      let id = o.client_order_id in
      let acked = record c {
        journal = ack true submit id (some answer.venue_order_id) 0 c.journal;
      } in
      if is_ok answer.result
      then map_order o answer.venue_order_id acked
      else (answer.result, record c { journal = fail true submit id 0 c.journal })

  unfoldable pub submit_order : Order → Connector → ConnectorResult × Connector
  unfolding map_order with_retries submit_answered
  submit_order o c =
      let (decision, j) = begin true submit o.client_order_id 0 c.journal in
      let begun = record c { journal = j } in
      if already_acked decision
      then (if is_order_id decision.venue_order_id
          then map_order o decision.venue_order_id begun
          else (ConnectorResult.ok, begun))
      else if not (should_send_to_venue decision)
      then (ConnectorResult.error_unknown, begun)
      else (let (answer, sent) = with_retries (submits o) begun in submit_answered o answer sent)

  pub cancel_answered : ℕ → VenueOrderEntry → Answer → Connector → ConnectorResult × Connector
  cancel_answered id mapped answer c =
      if is_ok answer.result
      then (
        ConnectorResult.ok,
        record c {
          journal = ack true cancel id (some mapped.venue_order_id) 0 c.journal;
          orders = (erase id c.orders).1;
        },
      )
      else (answer.result, record c { journal = fail true cancel id 0 c.journal })

  pub cancel_mapped : ℕ → Option VenueOrderEntry → Connector → ConnectorResult × Connector
  unfolding with_retries cancel_answered
  cancel_mapped id none c =
      (ConnectorResult.error_invalid_order, record c { journal = fail true cancel id 0 c.journal })
  cancel_mapped id (some mapped) c =
      let (answer, sent) = with_retries (cancels mapped) c in cancel_answered id mapped answer sent

  abbrev pub under_way : JournalDecision → Bool
  under_way d = is_in_flight d.state || is_acked d.state

  pub cancel_order : ℕ → Connector → ConnectorResult × Connector
  unfolding cancel_mapped
  cancel_order id c =
      let (decision, j) = begin true cancel id 0 c.journal in
      let begun = record c { journal = j } in
      if under_way (lookup replace id c.journal)
      then (ConnectorResult.error_invalid_order, c)
      else if already_acked decision
      then (ConnectorResult.ok, begun)
      else if not (should_send_to_venue decision)
      then (ConnectorResult.error_unknown, begun)
      else cancel_mapped id (get id begun.orders) begun

  pub replace_answered : ℕ → Order → Answer → Connector → ConnectorResult × Connector
  unfolding map_order
  replace_answered id o answer c =
      let acked = record c {
        journal = ack true replace id (some answer.venue_order_id) o.client_order_id c.journal;
        orders = (erase id c.orders).1;
      } in
      if is_ok answer.result
      then map_order o answer.venue_order_id acked
      else (answer.result, record c { journal = fail true replace id o.client_order_id c.journal })

  pub replace_mapped : ℕ → Order → Option VenueOrderEntry → Connector → ConnectorResult × Connector
  unfolding map_order with_retries replace_answered
  replace_mapped id o none c = (ConnectorResult.error_invalid_order, c)
  replace_mapped id o (some mapped) c =
      let (decision, j) = begin true replace id o.client_order_id c.journal in
      let begun = record c { journal = j } in
      if already_acked decision
      then (if is_order_id decision.venue_order_id
          then map_order o decision.venue_order_id (record begun { orders = (erase id c.orders).1 })
          else (ConnectorResult.ok, begun))
      else if not (should_send_to_venue decision)
      then (ConnectorResult.error_unknown, begun)
      else (let (answer, sent) = with_retries (replaces mapped o) begun in
          replace_answered id o answer sent)

  pub replace_order : ℕ → Order → Connector → ConnectorResult × Connector
  unfolding replace_mapped
  replace_order id o c =
      if under_way (lookup cancel id c.journal)
      then (ConnectorResult.error_invalid_order, c)
      else replace_mapped id o (get id c.orders) c

  query_mapped : Option VenueOrderEntry → Connector → ConnectorResult × Connector
  unfolding with_retries
  query_mapped none c = (ConnectorResult.error_invalid_order, c)
  query_mapped (some mapped) c =
      let (answer, sent) = with_retries (queries mapped) c in (answer.result, sent)

  pub query_order : ℕ → Connector → ConnectorResult × Connector
  unfolding query_mapped
  query_order id c = query_mapped (get id c.orders) c

  pub cancel_all : List ℕ → Connector → ConnectorResult × Connector
  cancel_all symbol c = (
    (venue (cancels_all symbol ∷ c.calls)).result,
    record c { calls = cancels_all symbol ∷ c.calls },
  )

unfoldable pub reconcile : Connector → ConnectorResult × Connector
reconcile c =
    (ConnectorResult.ok, record c { journal = recover c.journal; orders = clear c.orders })

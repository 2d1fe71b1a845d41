-- ===== src/Connectors/LiveConnector/Submission.antt =====
-- An order that was submitted with success is not sent to the venue a second time.
use trading_infrastructure_c.Common.{
  ℕ, zero, suc, not, ◌||◌, ◌==◌, ◌∷◌, pick, ◌≡◌, refl, sym, ap, ◌∙◌, ◌≢◌, true, some, List, inl,
  inr, arith, Bool-cases,
}
use trading_infrastructure_c.Connectors.Journal.{
  JournalDecision, JournalState, submit, is_in_flight, is_acked, already_acked,
  should_send_to_venue, begin, lookup,
}
use trading_infrastructure_c.Connectors.Journal.Recovery.{
  Consistent, ack-Consistent, fail-Consistent,
}
use trading_infrastructure_c.Connectors.Journal.Crash.{begin-Consistent, recover_keeps}
use trading_infrastructure_c.Connectors.Text.{IsWord}
use trading_infrastructure_c.Connectors.Journal.Lookup.{lookup-begin, begin_acked, ack_acked}
use trading_infrastructure_c.Connectors.LiveConnector.{
  ConnectorResult, is_ok, Order, VenueCall, submits, Answer, Venue, Connector, is_order_id,
  is_retryable, retry, with_retries, map_order, submit_answered, submit_order, reconcile,
}

abbrev IsAcked : ℕ → Connector → Type 0
IsAcked id c = (lookup submit id c.journal).state ≡ JournalState.acked

acked_of_test : (s : JournalState) → is_acked s ≡ true → s ≡ JournalState.acked
acked_of_test JournalState.acked h = refl
acked_of_test JournalState.none h = cc
acked_of_test JournalState.in_flight h = cc
acked_of_test JournalState.failed h = cc

map_order-journal :
    (venue : Venue) (o : Order) (id : List ℕ) (c : Connector)
    → (map_order venue o id c).1.journal ≡ c.journal
unfolding map_order
map_order-journal venue o id c = refl

map_order-calls :
    (venue : Venue) (o : Order) (id : List ℕ) (c : Connector)
    → (map_order venue o id c).1.calls ≡ c.calls
unfolding map_order
map_order-calls venue o id c = refl

with_retries-journal :
    (venue : Venue) (call : VenueCall) (c : Connector)
    → (with_retries venue call c).1.journal ≡ c.journal
unfolding with_retries
with_retries-journal venue call c = refl

in_flight_begun : (s : JournalState) → is_in_flight s ≡ true → s ≢ JournalState.none
in_flight_begun JournalState.in_flight h n = cc
in_flight_begun JournalState.acked h n = cc
in_flight_begun JournalState.none h n = cc
in_flight_begun JournalState.failed h n = cc

unknown-not-ok : ConnectorResult.error_unknown ≢ ConnectorResult.ok
unknown-not-ok h = cc

is_ok_ok : (r : ConnectorResult) → r ≡ ConnectorResult.ok → is_ok r ≡ true
is_ok_ok r h = rw h refl

-- What the sent order's answer leaves in the journal.
answered-IsAcked :
    (venue : Venue) (o : Order) (answer : Answer) (c : Connector)
    → (lookup submit o.client_order_id c.journal).state ≢ JournalState.none
    → (submit_answered venue o answer c).0 ≡ ConnectorResult.ok
    → IsAcked o.client_order_id (submit_answered venue o answer c).1
unfolding submit_answered
answered-IsAcked venue o answer c begun success = elim (Bool-cases (is_ok answer.result)) [
  | inl fine ↦
      rw fine
        (ack_acked submit o.client_order_id (some answer.venue_order_id) 0 true c.journal begun)
  | inr bad ↦
      let refused : (submit_answered venue o answer c).0 ≡ answer.result = rw bad refl in
      absurd (ground (arith, is_ok_ok answer.result (sym refused ∙ success)))
]

submit-IsAcked :
    (venue : Venue) (o : Order) (c : Connector)
    → (submit_order venue o c).0 ≡ ConnectorResult.ok
    → IsAcked o.client_order_id (submit_order venue o c).1
unfolding submit_order
submit-IsAcked venue o c success =
    let (decision, j) = begin true submit o.client_order_id 0 c.journal in
    elim (Bool-cases (already_acked decision)) [
      | inl acked ↦
          let state = acked_of_test decision.state acked in
          let kept =
            ap (λ (d : JournalDecision). d.state)
              (lookup-begin submit o.client_order_id 0 true c.journal (λ n. cc))
            ∙ state in
          elim (Bool-cases (is_order_id decision.venue_order_id)) [
            | inl real ↦ rw (acked, real) kept
            | inr blank ↦ rw (acked, blank) kept
          ]
      | inr fresh ↦ elim (Bool-cases (should_send_to_venue decision)) [
        | inl sends ↦
            let begun =
              lookup-begin submit o.client_order_id 0 true c.journal
                (λ n. in_flight_begun decision.state sends n) in
            let sent = with_retries venue (submits o) (record c { journal = j }) in
            let same : submit_order venue o c ≡ submit_answered venue o sent.0 sent.1 =
              rw (fresh, sends) refl in
            rw same (
              answered-IsAcked venue o sent.0 sent.1
                (λ n.
                  in_flight_begun decision.state sends
                    (sym (ap (λ (d : JournalDecision). d.state) begun) ∙ n))
                (sym (ap (λ (p : ConnectorResult × Connector). p.0) same) ∙ success))
        | inr stays ↦
            let refused : (submit_order venue o c).0 ≡ ConnectorResult.error_unknown =
              rw (fresh, stays) refl in
            absurd (unknown-not-ok (sym refused ∙ success))
      ]
    ]

acked_unsent :
    (venue : Venue) (o : Order) (c : Connector)
    → IsAcked o.client_order_id c
    → (submit_order venue o c).1.calls ≡ c.calls
unfolding submit_order
acked_unsent venue o c h =
    let again = begin_acked submit o.client_order_id 0 true c.journal h in
    elim (Bool-cases
      (is_order_id (begin true submit o.client_order_id 0 c.journal).0.venue_order_id)) [
        | inl real ↦ rw (again, real) refl
        | inr blank ↦ rw (again, blank) refl
      ]

-- A submit that answered `ok`, followed by a submit with the same client order id, sends nothing to
-- the venue: the second leaves the log of calls as it is, whatever the venue would answer.
pub submit_once :
    (venue : Venue) (o again : Order) (c : Connector)
    → again.client_order_id ≡ o.client_order_id
    → (submit_order venue o c).0 ≡ ConnectorResult.ok
    → let c' = (submit_order venue o c).1 in (submit_order venue again c').1.calls ≡ c'.calls
submit_once venue o again c same success =
    acked_unsent venue again (submit_order venue o c).1 (rw same (submit-IsAcked venue o c success))

-- A venue none of whose answers has white space in its order id.
abbrev pub IsCleanVenue : Venue → Type 0
IsCleanVenue venue = (log : List VenueCall) → IsWord (venue log).venue_order_id

retry-IsWord :
    (venue : Venue) (n : ℕ) (call : VenueCall) (log : List VenueCall)
    → IsCleanVenue venue
    → IsWord (retry venue n call log).0.venue_order_id
unfolding retry
retry-IsWord venue zero call log k = tt
retry-IsWord venue (suc n) call log k =
    let answer = venue (call ∷ log) in
    pick (λ (r : Answer × List VenueCall). IsWord r.0.venue_order_id)
      (is_ok answer.result || not (is_retryable answer.result) || n == 0) _ _ (λ e. k (call ∷ log))
      (λ e. retry-IsWord venue n call (call ∷ log) k)

with_retries-IsWord :
    (venue : Venue) (call : VenueCall) (c : Connector)
    → IsCleanVenue venue
    → IsWord (with_retries venue call c).0.venue_order_id
unfolding with_retries
with_retries-IsWord venue call c k = retry-IsWord venue c.max_attempts call c.calls k

answered-Consistent :
    (venue : Venue) (o : Order) (answer : Answer) (c : Connector)
    → IsWord answer.venue_order_id
    → Consistent c.journal
    → Consistent (submit_answered venue o answer c).1.journal
unfolding submit_answered
answered-Consistent venue o answer c k v = elim (Bool-cases (is_ok answer.result)) [
  | inl fine ↦
      rw fine (ack-Consistent submit o.client_order_id (some answer.venue_order_id) 0 c.journal k v)
  | inr bad ↦ rw bad (fail-Consistent submit o.client_order_id 0 c.journal v)
]

submit_order-Consistent :
    (venue : Venue) (o : Order) (c : Connector)
    → IsCleanVenue venue
    → Consistent c.journal
    → Consistent (submit_order venue o c).1.journal
unfolding submit_order
submit_order-Consistent venue o c k v =
    let (decision, j) = begin true submit o.client_order_id 0 c.journal in
    let begun = begin-Consistent submit o.client_order_id 0 c.journal v in
    let sent = with_retries venue (submits o) (record c { journal = j }) in
    elim (Bool-cases (already_acked decision)) [
      | inl acked ↦ elim (Bool-cases (is_order_id decision.venue_order_id)) [
        | inl real ↦ rw (acked, real) begun
        | inr blank ↦ rw (acked, blank) begun
      ]
      | inr fresh ↦ elim (Bool-cases (should_send_to_venue decision)) [
        | inl sends ↦
            let word = with_retries-IsWord venue (submits o) (record c { journal = j }) k in
            rw (fresh, sends) (answered-Consistent venue o sent.0 sent.1 word begun)
        | inr stays ↦ rw (fresh, stays) begun
      ]
    ]

-- Let the file have the lines of the journal's records, with no white space in a venue order id, and let no
-- answer of the venue have any in its order id. Then after a submit that answered `ok`, a crash and
-- `reconcile`, which reads the journal from its file, a submit with the same client order id sends
-- nothing to the venue.
pub submit_once_after_restart :
    (venue : Venue) (o again : Order) (c : Connector)
    → IsCleanVenue venue
    → again.client_order_id ≡ o.client_order_id
    → Consistent c.journal
    → (submit_order venue o c).0 ≡ ConnectorResult.ok
    → let c' = (reconcile (submit_order venue o c).1).1 in
      (submit_order venue again c').1.calls ≡ (submit_order venue o c).1.calls
unfolding reconcile
submit_once_after_restart venue o again c k same v success =
    let c' = (submit_order venue o c).1 in
    let kept =
      recover_keeps submit o.client_order_id c'.journal (submit_order-Consistent venue o c k v) in
    acked_unsent venue again (reconcile c').1
      (rw same (kept.same_state ∙ submit-IsAcked venue o c success))

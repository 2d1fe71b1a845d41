-- ===== src/Connectors/Journal.antt =====
-- core/execution/common/connectors/idempotency_journal.hpp. The array of entries is a list, a pointer
-- into it an index. The file is its bytes, which are written and read as in Records and Text; `opens`
-- tells whether it can be opened. Strings are the bytes before the NUL.
pub mod Slots
pub mod Recovery
pub mod Crash
pub mod Lookup
use trading_infrastructure_c.Common.{
  ℕ, suc, ◌+◌, ◌-◌, Bool, true, false, not, ◌&&◌, Option, some, List, [], ◌∷◌, ◌++◌, ltb, zero,
  length, ◌==◌, if◌then◌else◌, take, get_or, set, replicate, u64_max,
}
pub use trading_infrastructure_c.Connectors.Records.{
  JournalOperation, submit, cancel, replace, JournalState, VenueId, Entry, DiskRecord, dash,
  operation_code, state_code, line_text, operation_of, state_of, read_record, read_records,
}
use trading_infrastructure_c.Common.Slots.{find_index}

abbrev pub max_records : ℕ
max_records = 256

pub record JournalDecision : Type 0 where
  pub state : JournalState
  pub attempt : ℕ
  pub related_client_order_id : ℕ
  pub venue_order_id : VenueId

abbrev pub is_in_flight : JournalState → Bool
is_in_flight JournalState.in_flight = true
is_in_flight _ = false

abbrev pub is_acked : JournalState → Bool
is_acked JournalState.acked = true
is_acked _ = false

abbrev pub should_send_to_venue : JournalDecision → Bool
should_send_to_venue d = is_in_flight d.state

abbrev pub already_acked : JournalDecision → Bool
already_acked d = is_acked d.state

pub record Journal : Type 0 where
  pub entries : List Entry
  pub duplicate_ack_count : ℕ
  pub disk : List ℕ

abbrev pub blank_entry : Entry
blank_entry = record {
  used = false;
  op = submit;
  client_order_id = 0;
  related_client_order_id = 0;
  attempt = 0;
  state = JournalState.none;
  venue_order_id = [];
}

abbrev pub blank_decision : JournalDecision
blank_decision = record {
  state = JournalState.none;
  attempt = 0;
  related_client_order_id = 0;
  venue_order_id = [];
}

abbrev pub same_operation : JournalOperation → JournalOperation → Bool
same_operation submit submit = true
same_operation cancel cancel = true
same_operation replace replace = true
same_operation _ _ = false

-- strncpy into a `char[64]` that is then closed by a NUL.
abbrev pub copy_64 : VenueId → VenueId
copy_64 v = take 63 v

unfoldable pub saturating_add : ℕ → ℕ → ℕ
saturating_add value delta = if ltb (u64_max - delta) value then u64_max else value + delta

unfoldable pub populate_decision : Entry → JournalDecision
populate_decision e = record {
  state = e.state;
  attempt = e.attempt;
  related_client_order_id = e.related_client_order_id;
  venue_order_id = copy_64 e.venue_order_id;
}

abbrev pub has_key : JournalOperation → ℕ → Entry → Bool
has_key op id e = e.used && same_operation e.op op && e.client_order_id == id

unfoldable pub find_slot : JournalOperation → ℕ → List Entry → Option ℕ
find_slot op id es = find_index (has_key op id) es

abbrev pub is_free : Entry → Bool
is_free e = not e.used

unfoldable pub free_slot : List Entry → Option ℕ
free_slot es = find_index is_free es

abbrev pub entry_at : List Entry → ℕ → Entry
entry_at es i = get_or es i blank_entry

-- The first loop of `find_or_create` failed: take a free entry, or fail when there is none.
create : JournalOperation → ℕ → List Entry → Option ℕ → Option (ℕ × List Entry)
create op id es Option.none = Option.none
create op id es (some i) =
    some (i, set es i (record (entry_at es i) { used = true; op = op; client_order_id = id }))

choose : JournalOperation → ℕ → List Entry → Option ℕ → Option (ℕ × List Entry)
unfolding create
choose op id es (some i) = some (i, es)
choose op id es Option.none = create op id es (free_slot es)

unfoldable pub find_or_create : JournalOperation → ℕ → List Entry → Option (ℕ × List Entry)
unfolding choose
find_or_create op id es = choose op id es (find_slot op id es)

unfoldable pub append_record : Bool → Entry → List ℕ → List ℕ
unfolding line_text
append_record opens e disk = if opens then disk ++ line_text e [] else disk

-- Entry `i` takes the value `e`, which is written to the file.
unfoldable pub save : Bool → List Entry → ℕ → Entry → Journal → Journal
unfolding append_record
save opens es i e j = record j { entries = set es i e; disk = append_record opens e j.disk }

-- The branches of `begin` on the state of the entry found.
begin_entry : Bool → ℕ → List Entry → ℕ → Journal → JournalState → JournalDecision × Journal
unfolding save populate_decision saturating_add
begin_entry opens related es i j JournalState.acked = (
  populate_decision (entry_at es i),
  record j { entries = es; duplicate_ack_count = saturating_add j.duplicate_ack_count 1 },
)
begin_entry opens related es i j JournalState.in_flight =
    (populate_decision (entry_at es i), record j { entries = es })
begin_entry opens related es i j _ =
    let e = record (entry_at es i) {
      state = JournalState.in_flight;
      attempt = saturating_add (entry_at es i).attempt 1;
      related_client_order_id = related;
    } in
    (populate_decision e, save opens es i e j)

begin_at : Bool → ℕ → Journal → Option (ℕ × List Entry) → JournalDecision × Journal
unfolding begin_entry
begin_at opens related j Option.none = (blank_decision, j)
begin_at opens related j (some (i, es)) = begin_entry opens related es i j (entry_at es i).state

unfoldable pub begin : Bool → JournalOperation → ℕ → ℕ → Journal → JournalDecision × Journal
unfolding begin_at
begin opens op id related j = begin_at opens related j (find_or_create op id j.entries)

count_duplicate : JournalState → ℕ → ℕ
unfolding saturating_add
count_duplicate JournalState.acked n = saturating_add n 1
count_duplicate _ n = n

-- A null pointer leaves the venue id as it is.
new_venue_id : Option VenueId → VenueId → VenueId
new_venue_id Option.none old = old
new_venue_id (some venue) old = copy_64 venue

ack_at : Bool → Option VenueId → ℕ → Journal → Option (ℕ × List Entry) → Journal
unfolding save count_duplicate new_venue_id
ack_at opens venue related j Option.none = j
ack_at opens venue related j (some (i, es)) =
    save opens es i
      (record (entry_at es i) {
        state = JournalState.acked;
        related_client_order_id = related;
        venue_order_id = new_venue_id venue (entry_at es i).venue_order_id;
      })
      (record j {
        duplicate_ack_count = count_duplicate (entry_at es i).state j.duplicate_ack_count;
      })

unfoldable pub ack : Bool → JournalOperation → ℕ → Option VenueId → ℕ → Journal → Journal
unfolding ack_at
ack opens op id venue related j = ack_at opens venue related j (find_or_create op id j.entries)

fail_at : Bool → ℕ → Journal → Option (ℕ × List Entry) → Journal
unfolding save
fail_at opens related j Option.none = j
fail_at opens related j (some (i, es)) =
    save opens es i
      (record (entry_at es i) { state = JournalState.failed; related_client_order_id = related }) j

unfoldable pub fail : Bool → JournalOperation → ℕ → ℕ → Journal → Journal
unfolding fail_at
fail opens op id related j = fail_at opens related j (find_or_create op id j.entries)

decide_at : List Entry → Option ℕ → JournalDecision
unfolding populate_decision
decide_at es Option.none = blank_decision
decide_at es (some i) = populate_decision (entry_at es i)

unfoldable pub lookup : JournalOperation → ℕ → Journal → JournalDecision
unfolding decide_at
lookup op id j = decide_at j.entries (find_slot op id j.entries)

unfoldable pub in_flight_count : List Entry → ℕ
in_flight_count [] = 0
in_flight_count (e ∷ es) =
    let rest = in_flight_count es in if e.used && is_in_flight e.state then suc rest else rest

replay_at : DiskRecord → List Entry → Option (ℕ × List Entry) → List Entry
replay_at r es Option.none = es
replay_at r es (some (i, es')) = set es' i (record (entry_at es' i) {
  state = r.state;
  attempt = r.attempt;
  related_client_order_id = r.related_client_order_id;
  venue_order_id = copy_64 r.venue_order_id;
})

pub replay_record : List Entry → DiskRecord → List Entry
unfolding replay_at
replay_record es r =
    if r.version == 1 then replay_at r es (find_or_create r.op r.client_order_id es) else es

pub replay : List Entry → List DiskRecord → List Entry
replay es [] = es
replay es (r ∷ rs) = replay (replay_record es r) rs

unfoldable pub recover : Journal → Journal
unfolding replay read_records
recover j = record j {
  entries = replay (replicate max_records blank_entry) (read_records (suc (length j.disk)) j.disk);
  duplicate_ack_count = 0;
}

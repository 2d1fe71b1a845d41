-- ===== src/Connectors/Records.antt =====
-- The records of core/execution/common/connectors/idempotency_journal.hpp and their lines in its file. Of a
-- file that append_record has not written, no sign in front of a number and no code of an enumerator
-- beyond the last is read. Strings are the bytes before the NUL.
pub mod Lines
use trading_infrastructure_c.Common.{ℕ, zero, suc, Bool, Option, some, List, [], ◌∷◌, ◌++◌}
use trading_infrastructure_c.Connectors.Text.{write_number, read_number, read_word}

pub data JournalOperation : Type 0 where
  submit cancel replace : JournalOperation

pub data JournalState : Type 0 where
  none in_flight acked failed : JournalState

abbrev pub VenueId : Type 0
VenueId = List ℕ

pub record Entry : Type 0 where
  pub used : Bool
  pub op : JournalOperation
  pub client_order_id : ℕ
  pub related_client_order_id : ℕ
  pub attempt : ℕ
  pub state : JournalState
  pub venue_order_id : VenueId

-- What `recover` reads of a record in the file.
pub record DiskRecord : Type 0 where
  pub version : ℕ
  pub op : JournalOperation
  pub client_order_id : ℕ
  pub related_client_order_id : ℕ
  pub attempt : ℕ
  pub state : JournalState
  pub venue_order_id : VenueId

-- The venue id of a record is "-" if the entry has none.
abbrev pub dash : VenueId → VenueId
dash [] = 45 ∷ []
dash (c ∷ cs) = c ∷ cs

abbrev pub operation_code : JournalOperation → ℕ
operation_code submit = 0
operation_code cancel = 1
operation_code replace = 2

abbrev pub state_code : JournalState → ℕ
state_code JournalState.none = 0
state_code JournalState.in_flight = 1
state_code JournalState.acked = 2
state_code JournalState.failed = 3

-- "1 %u %llu %llu %llu %u %s\n", in front of `text`.
unfoldable pub line_text : Entry → List ℕ → List ℕ
unfolding write_number
line_text e text =
    49
    ∷ 32
    ∷ write_number (operation_code e.op) (
        32
        ∷ write_number e.client_order_id (
            32
            ∷ write_number e.related_client_order_id (
                32
                ∷ write_number e.attempt (
                    32
                    ∷ write_number (state_code e.state)
                        (32 ∷ (dash e.venue_order_id ++ 10 ∷ text))))))

abbrev pub operation_of : ℕ → Option JournalOperation
operation_of zero = some submit
operation_of (suc zero) = some cancel
operation_of (suc (suc zero)) = some replace
operation_of _ = Option.none

abbrev pub state_of : ℕ → Option JournalState
state_of zero = some JournalState.none
state_of (suc zero) = some JournalState.in_flight
state_of (suc (suc zero)) = some JournalState.acked
state_of (suc (suc (suc zero))) = some JournalState.failed
state_of _ = Option.none

-- The next step of a chain of reads.
abbrev pub and_then : {A B : Type 0} → Option (A × List ℕ) → (A → List ℕ → Option B) → Option B
and_then Option.none next = Option.none
and_then (some (x, text)) next = next x text

abbrev pub with_code : {A B : Type 0} → Option A → (A → Option B) → Option B
with_code Option.none next = Option.none
with_code (some x) next = next x

-- One turn of the loop of `recover`: six numbers and a word.
unfoldable pub read_record : List ℕ → Option (DiskRecord × List ℕ)
unfolding read_number read_word
read_record text = and_then (read_number text) λ version text.
    and_then (read_number text) λ op text. and_then (read_number text) λ id text.
      and_then (read_number text) λ related text. and_then (read_number text) λ attempt text.
        and_then (read_number text) λ state text. and_then (read_word text) λ word text.
          with_code (operation_of op) λ op. with_code (state_of state) λ state. some (
            record {
              version = version;
              op = op;
              client_order_id = id;
              related_client_order_id = related;
              attempt = attempt;
              state = state;
              venue_order_id = word;
            },
            text,
          )

-- The loop, which the first read that fails ends. A turn reads a byte at least, so that one step of fuel
-- more than there are bytes is enough.
unfoldable pub read_records : ℕ → List ℕ → List DiskRecord
unfolding read_record
read_records zero text = []
read_records (suc n) text = elim (read_record text) [
  | Option.none ↦ []
  | some (r, rest) ↦ r ∷ read_records n rest
]

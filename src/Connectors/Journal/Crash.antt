-- ===== src/Connectors/Journal/Crash.antt =====
-- Histories of a journal with crashes: `recover` rebuilds what every lookup answered.
use trading_infrastructure_c.Common.{
  ℕ, zero, suc, ◌≡◌, refl, sym, ap, ◌∙◌, ◌≢◌, ◌⊎◌, inl, inr, true, Option, some, List, [], ◌∷◌, map,
  take-take, get_or-map, replicate, arith, All, Bool-cases, Option-cases,
}
use trading_infrastructure_c.Connectors.Journal.{
  JournalOperation, JournalState, VenueId, Entry, Journal, JournalDecision, max_records,
  blank_entry, copy_64, dash, entry_at, find_slot, find_or_create, populate_decision, begin, ack,
  fail, lookup, replay, recover, begin_at, begin_entry, decide_at,
}
use trading_infrastructure_c.Connectors.Journal.Slots.{
  Way, found, fresh, claimed, find_slot_key, free_slot-set, find_or_create-Way,
  find_or_create-Located,
}
use trading_infrastructure_c.Connectors.Journal.Recovery.{
  IsBlank, Consistent, normal, find_slot-normal, save-Consistent, ack-Consistent, fail-Consistent,
  free_state, read_back, slot-HasWord, take-IsWord, IsClean,
}
use trading_infrastructure_c.Connectors.Text.{IsWord}
use trading_infrastructure_c.Connectors.Records.Lines.{HasWord}

-- An entry that `find_or_create` has just claimed has no state yet.
claimed_state :
    (op : JournalOperation) (id : ℕ) (es es' : List Entry) (i : ℕ)
    → All IsBlank es
    → Way op id es es' i
    → (es' ≡ es) ⊎ ((entry_at es' i).state ≡ JournalState.none)
claimed_state op id es es' i b (found f same) = inl same
claimed_state op id es es' i b (fresh n f same) =
    inr (rw (same, free_slot-set es i (claimed op id (entry_at es i)) f) (free_state es i b f))

kept-Consistent :
    (j : Journal) (es' : List Entry) (n : ℕ)
    → Consistent j
    → es' ≡ j.entries
    → Consistent (record j { entries = es'; duplicate_ack_count = n })
kept-Consistent j es' n v same = record {
  written = v.written;
  text = v.text;
  words = v.words;
  clean = rw same v.clean;
  rebuilt = v.rebuilt ∙ ap (map normal) (sym same);
  untouched = rw same v.untouched;
}

begin_entry-Consistent :
    (op : JournalOperation) (id related : ℕ) (j : Journal) (i : ℕ) (es' : List Entry)
    (s : JournalState)
    → Consistent j
    → find_or_create op id j.entries ≡ some (i, es')
    → (entry_at es' i).state ≡ s
    → Consistent (begin_entry true related es' i j s).1
unfolding begin_entry
begin_entry-Consistent op id related j i es' JournalState.acked v h e =
    elim (claimed_state op id j.entries es' i v.untouched
      (find_or_create-Way op id j.entries es' i h)) [
        | inl same ↦ kept-Consistent j es' _ v same
        | inr new ↦ cc
      ]
begin_entry-Consistent op id related j i es' JournalState.in_flight v h e =
    elim (claimed_state op id j.entries es' i v.untouched
      (find_or_create-Way op id j.entries es' i h)) [
        | inl same ↦ kept-Consistent j es' j.duplicate_ack_count v same
        | inr new ↦ cc
      ]
begin_entry-Consistent op id related j i es' _ v h e =
    let l = find_or_create-Located op id j.entries es' i h in
    save-Consistent op id es' i _ j j.duplicate_ack_count v h l.is_used l.has_op l.has_id
      (slot-HasWord op id j.entries es' i v.clean h)

pub begin-Consistent :
    (op : JournalOperation) (id related : ℕ) (j : Journal)
    → Consistent j
    → Consistent (begin true op id related j).1
unfolding begin
begin-Consistent op id related j v = elim (Option-cases (find_or_create op id j.entries)) [
  | inl full ↦ rw (full, begin_at) v
  | inr ((i, es'), h) ↦
      rw (h, begin_at)
        (begin_entry-Consistent op id related j i es' (entry_at es' i).state v h refl)
]

-- Cutting and dashing twice is cutting and dashing once.
copy-dash : (v : VenueId) → copy_64 (dash v) ≡ dash (copy_64 v)
copy-dash [] = refl
copy-dash (c ∷ cs) = refl

copy_dash_twice : (v : VenueId) → copy_64 (dash (copy_64 (dash v))) ≡ copy_64 (dash v)
copy_dash_twice [] = refl
copy_dash_twice (c ∷ cs) = ap (◌∷◌ c) (take-take 62 cs)

normal-normal : (e : Entry) → normal (normal e) ≡ normal e
unfolding normal
normal-normal e = ground (arith, copy_dash_twice e.venue_order_id)

map-normal : (es : List Entry) → map normal (map normal es) ≡ map normal es
map-normal [] = refl
map-normal (e ∷ es) = rw (normal-normal e, map-normal es)

All-normal : (es : List Entry) → All IsBlank es → All IsBlank (map normal es)
unfolding normal
All-normal [] h = tt
All-normal (e ∷ es) h = (ground (arith, h.0), All-normal es h.1)

dash-IsWord : (w : VenueId) → IsWord w → IsWord (dash w)
dash-IsWord [] h = (refl, tt)
dash-IsWord (c ∷ w) h = h

normal-HasWord : (e : Entry) → HasWord e → HasWord (normal e)
unfolding normal
normal-HasWord e h = elim (Bool-cases e.used) [
  | inl used ↦ rw used (take-IsWord 63 (dash e.venue_order_id) (dash-IsWord e.venue_order_id h))
  | inr free ↦ rw free h
]

All-map-normal : (es : List Entry) → All HasWord es → All HasWord (map normal es)
All-map-normal [] h = tt
All-map-normal (e ∷ es) h = (normal-HasWord e h.0, All-map-normal es h.1)

recover-Consistent : (j : Journal) → Consistent j → Consistent (recover j)
unfolding recover
recover-Consistent j v = record {
  written = v.written;
  text = v.text;
  words = v.words;
  rebuilt = v.rebuilt ∙ sym (ap (map normal) (read_back j v) ∙ map-normal j.entries);
  untouched = rw (read_back j v) (All-normal j.entries v.untouched);
  clean = rw (read_back j v) (All-map-normal j.entries v.clean);
}

-- What happens to a journal: the connector's calls, each written to the file, and crashes, after
-- which the constructor recovers it.
pub data Event : Type 0 where
  begins : JournalOperation → ℕ → ℕ → Event
  acks : JournalOperation → ℕ → Option VenueId → ℕ → Event
  fails : JournalOperation → ℕ → ℕ → Event
  crashes : Event

pub step : Journal → Event → Journal
step j (begins op id related) = (begin true op id related j).1
step j (acks op id venue related) = ack true op id venue related j
step j (fails op id related) = fail true op id related j
step j crashes = recover j

pub run : Journal → List Event → Journal
run j [] = j
run j (e ∷ es) = run (step j e) es

-- A journal on a new file.
abbrev pub empty_journal : Journal
empty_journal = record {
  entries = replicate max_records blank_entry;
  duplicate_ack_count = 0;
  disk = [];
}

-- That the venue ids that an event records have no white space.
abbrev pub IsCleanEvent : Event → Type 0
IsCleanEvent (begins op id related) = Unit
IsCleanEvent (acks op id venue related) = IsClean venue
IsCleanEvent (fails op id related) = Unit
IsCleanEvent crashes = Unit

step-Consistent : (j : Journal) (e : Event) → IsCleanEvent e → Consistent j → Consistent (step j e)
unfolding step
step-Consistent j (begins op id related) k v = begin-Consistent op id related j v
step-Consistent j (acks op id venue related) k v = ack-Consistent op id venue related j k v
step-Consistent j (fails op id related) k v = fail-Consistent op id related j v
step-Consistent j crashes k v = recover-Consistent j v

pub run-Consistent :
    (j : Journal) (es : List Event) → All IsCleanEvent es → Consistent j → Consistent (run j es)
unfolding run
run-Consistent j [] k v = v
run-Consistent j (e ∷ es) k v = run-Consistent (step j e) es k.1 (step-Consistent j e k.0 v)

normal_blank : (n : ℕ) → map normal (replicate n blank_entry) ≡ replicate n blank_entry
unfolding normal
normal_blank zero = refl
normal_blank (suc n) = ap (◌∷◌ blank_entry) (normal_blank n)

IsBlank-untouched : (n : ℕ) → All IsBlank (replicate n blank_entry)
IsBlank-untouched zero = tt
IsBlank-untouched (suc n) = ((λ h. refl), IsBlank-untouched n)

HasWord-blank : (n : ℕ) → All HasWord (replicate n blank_entry)
HasWord-blank zero = tt
HasWord-blank (suc n) = (tt, HasWord-blank n)

pub empty-Consistent : Consistent empty_journal
unfolding replay
empty-Consistent = record {
  written = [];
  text = refl;
  words = tt;
  rebuilt = sym (normal_blank max_records);
  untouched = IsBlank-untouched max_records;
  clean = HasWord-blank max_records;
}

-- What a lookup after a crash answers for the decision it answered before.
pub record SameDecision (before after : JournalDecision) : Type 0 where
  pub same_state : after.state ≡ before.state
  pub same_attempt : after.attempt ≡ before.attempt
  pub same_related : after.related_client_order_id ≡ before.related_client_order_id
  pub same_venue : before.venue_order_id ≢ [] → after.venue_order_id ≡ before.venue_order_id

copy_dash_same : (v : VenueId) → copy_64 v ≢ [] → copy_64 (copy_64 (dash v)) ≡ copy_64 v
copy_dash_same [] h = absurd (h refl)
copy_dash_same (c ∷ cs) h = ap (◌∷◌ c) (take-take 62 cs)

populate_normal :
    (e : Entry) → e.used ≡ true → SameDecision (populate_decision e) (populate_decision (normal e))
unfolding populate_decision normal
populate_normal e u = ground (arith, copy_dash_same e.venue_order_id)

entry_at-normal : (es : List Entry) (i : ℕ) → entry_at (map normal es) i ≡ normal (entry_at es i)
unfolding normal
entry_at-normal es i = get_or-map normal es i blank_entry refl

lookup-normal :
    (op : JournalOperation) (id : ℕ) (j : Journal) (n : ℕ)
    → SameDecision
        (lookup op id j)
        (lookup op id (record j { entries = map normal j.entries; duplicate_ack_count = n }))
unfolding lookup
lookup-normal op id j n = elim (Option-cases (find_slot op id j.entries)) [
  | inl missing ↦ rw (find_slot-normal op id j.entries, missing, decide_at) (ground arith)
  | inr (i, f) ↦
      let key = find_slot_key op id j.entries i f in
      rw (find_slot-normal op id j.entries, f, decide_at, entry_at-normal j.entries i)
        (populate_normal (entry_at j.entries i) (ground arith))
]

pub recover_keeps :
    (op : JournalOperation) (id : ℕ) (j : Journal)
    → Consistent j
    → SameDecision (lookup op id j) (lookup op id (recover j))
unfolding recover
recover_keeps op id j v = rw (read_back j v) (lookup-normal op id j 0)

-- After any history of calls and crashes from a new file, in which every record is written and no venue
-- order id that is acknowledged has white space in it, a further crash changes no decision: `recover`
-- leaves each operation's state, attempt and related order, and its venue order id unless that was
-- empty.
pub crash_keeps_decisions :
    (es : List Event) (op : JournalOperation) (id : ℕ)
    → All IsCleanEvent es
    → let j = run empty_journal es in SameDecision (lookup op id j) (lookup op id (recover j))
crash_keeps_decisions es op id k =
    recover_keeps op id (run empty_journal es) (run-Consistent empty_journal es k empty-Consistent)

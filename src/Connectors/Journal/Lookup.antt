-- ===== src/Connectors/Journal/Lookup.antt =====
-- What a lookup answers after `begin` and `ack`.
use trading_infrastructure_c.Common.{
  ℕ, ◌≡◌, ap, ◌∙◌, ◌≢◌, Bool, true, Option, some, List, inl, inr, arith, Option-cases,
}
use trading_infrastructure_c.Connectors.Journal.{
  JournalOperation, JournalState, JournalDecision, VenueId, Entry, Journal, has_key, entry_at,
  find_slot, find_or_create, choose, populate_decision, save, begin, begin_at, begin_entry, ack,
  ack_at, lookup, decide_at,
}
use trading_infrastructure_c.Connectors.Journal.Slots.{
  found, fresh, claimed, find_or_create-Way, find_or_create-Located, find_slot-saved,
  same_operation_refl,
}

find_slot-located :
    (op : JournalOperation) (id : ℕ) (es es' : List Entry) (i : ℕ)
    → find_or_create op id es ≡ some (i, es')
    → find_slot op id es' ≡ some i
find_slot-located op id es es' i h = elim (find_or_create-Way op id es es' i h) [
  | found f same ↦ rw same f
  | fresh n f same ↦
      let e = claimed op id (entry_at es i) in
      let l = find_or_create-Located op id es es' i h in
      let s = find_slot-saved op id es es' i e h (ground (arith, same_operation_refl op)) in
      rw (same, ← l.overwrites e) s.0
]

lookup_at :
    (op : JournalOperation) (id : ℕ) (j : Journal) (i : ℕ)
    → find_slot op id j.entries ≡ some i
    → lookup op id j ≡ populate_decision (entry_at j.entries i)
unfolding lookup
lookup_at op id j i f = rw (f, decide_at)

slot_of_lookup :
    (op : JournalOperation) (id : ℕ) (j : Journal)
    → (lookup op id j).state ≢ JournalState.none
    → (i : ℕ) × (find_slot op id j.entries ≡ some i)
unfolding lookup
slot_of_lookup op id j h = elim (Option-cases (find_slot op id j.entries)) [
  | inl missing ↦ absurd (h (rw (missing, decide_at)))
  | inr (i, f) ↦ (i, f)
]

found_again :
    (op : JournalOperation) (id : ℕ) (j : Journal) (i : ℕ)
    → find_slot op id j.entries ≡ some i
    → find_or_create op id j.entries ≡ some (i, j.entries)
unfolding find_or_create
found_again op id j i f = rw (f, choose)

lookup_saved :
    (op : JournalOperation) (id : ℕ) (b : Bool) (es' : List Entry) (i : ℕ) (e : Entry) (j : Journal)
    (n : ℕ)
    → find_or_create op id j.entries ≡ some (i, es')
    → has_key op id e ≡ true
    → lookup op id (save b es' i e (record j { duplicate_ack_count = n })) ≡ populate_decision e
unfolding save
lookup_saved op id b es' i e j n h k =
    let (f, at) = find_slot-saved op id j.entries es' i e h k in
    lookup_at op id (save b es' i e (record j { duplicate_ack_count = n })) i f ∙ rw at

-- Where `begin` finds or makes an entry, its decision is what a lookup then answers.
begin_entry-lookup :
    (op : JournalOperation) (id related : ℕ) (b : Bool) (j : Journal) (i : ℕ) (es' : List Entry)
    (s : JournalState)
    → find_or_create op id j.entries ≡ some (i, es')
    → lookup op id (begin_entry b related es' i j s).1 ≡ (begin_entry b related es' i j s).0
unfolding begin_entry
begin_entry-lookup op id related b j i es' JournalState.acked h =
    lookup_at op id _ i (find_slot-located op id j.entries es' i h)
begin_entry-lookup op id related b j i es' JournalState.in_flight h =
    lookup_at op id _ i (find_slot-located op id j.entries es' i h)
begin_entry-lookup op id related b j i es' _ h =
    let l = find_or_create-Located op id j.entries es' i h in
    lookup_saved op id b es' i _ j j.duplicate_ack_count h
      (ground (arith, l.is_used, l.has_op, l.has_id, same_operation_refl op))

pub lookup-begin :
    (op : JournalOperation) (id related : ℕ) (b : Bool) (j : Journal)
    → (begin b op id related j).0.state ≢ JournalState.none
    → lookup op id (begin b op id related j).1 ≡ (begin b op id related j).0
unfolding begin
lookup-begin op id related b j h = elim (Option-cases (find_or_create op id j.entries)) [
  | inl full ↦ absurd (h (rw (full, begin_at)))
  | inr ((i, es'), f) ↦
      rw (f, begin_at) (begin_entry-lookup op id related b j i es' (entry_at es' i).state f)
]

-- An operation that is acked is not begun again.
pub begin_acked :
    (op : JournalOperation) (id related : ℕ) (b : Bool) (j : Journal)
    → (lookup op id j).state ≡ JournalState.acked
    → (begin b op id related j).0.state ≡ JournalState.acked
unfolding begin populate_decision
begin_acked op id related b j h =
    let (i, f) = slot_of_lookup op id j (λ n. cc) in
    let state : (entry_at j.entries i).state ≡ JournalState.acked =
      ground (arith, lookup_at op id j i f) in
    rw (found_again op id j i f, begin_at, state, begin_entry) state

-- `ack` acknowledges an operation that has been begun.
pub ack_acked :
    (op : JournalOperation) (id : ℕ) (venue : Option VenueId) (related : ℕ) (b : Bool) (j : Journal)
    → (lookup op id j).state ≢ JournalState.none
    → (lookup op id (ack b op id venue related j)).state ≡ JournalState.acked
unfolding ack populate_decision
ack_acked op id venue related b j h =
    let (i, f) = slot_of_lookup op id j h in
    let again = found_again op id j i f in
    let l = find_or_create-Located op id j.entries j.entries i again in
    rw (again, ack_at)
      (ap (λ (d : JournalDecision). d.state)
        (lookup_saved op id b j.entries i _ j _ again
          (ground (arith, l.is_used, l.has_op, l.has_id, same_operation_refl op))))

-- ===== src/Connectors/Journal/Slots.antt =====
-- Where `find_or_create` leads: an entry under the key asked for, in the list with only that entry
-- claimed.
use trading_infrastructure_c.Common.{
  ℕ, ◌≡◌, refl, ap, ◌∙◌, true, Option, some, List, set, set-set, arith, Option-cases, inl, inr,
}
use trading_infrastructure_c.Common.Slots.{
  find_index-passes, find_index-set_found, find_index-set_new, get_or-set,
}
use trading_infrastructure_c.Connectors.Journal.{
  JournalOperation, submit, cancel, replace, Entry, has_key, same_operation, entry_at, find_slot,
  free_slot, find_or_create, choose, create, is_free, blank_entry,
}

pub same_operation_eq : (a b : JournalOperation) → same_operation a b ≡ true → a ≡ b
same_operation_eq submit submit h = refl
same_operation_eq cancel cancel h = refl
same_operation_eq replace replace h = refl
same_operation_eq submit cancel h = cc
same_operation_eq submit replace h = cc
same_operation_eq cancel submit h = cc
same_operation_eq cancel replace h = cc
same_operation_eq replace submit h = cc
same_operation_eq replace cancel h = cc

pub find_slot_key :
    (op : JournalOperation) (id : ℕ) (es : List Entry) (i : ℕ)
    → find_slot op id es ≡ some i
    → has_key op id (entry_at es i) ≡ true
unfolding find_slot
find_slot_key op id es i h = (find_index-passes (has_key op id) es i blank_entry h).0

pub free_slot-set :
    (es : List Entry) (i : ℕ) (x : Entry) → free_slot es ≡ some i → entry_at (set es i x) i ≡ x
unfolding free_slot
free_slot-set es i x h =
    get_or-set es i x blank_entry (find_index-passes is_free es i blank_entry h).1

pub record Located (op : JournalOperation) (id : ℕ) (es es' : List Entry) (i : ℕ) : Type 0 where
  pub is_used : (entry_at es' i).used ≡ true
  pub has_op : (entry_at es' i).op ≡ op
  pub has_id : (entry_at es' i).client_order_id ≡ id
  pub overwrites : (x : Entry) → set es' i x ≡ set es i x

abbrev pub claimed : JournalOperation → ℕ → Entry → Entry
claimed op id e = record e { used = true; op = op; client_order_id = id }

-- The two ways to a slot: an entry under the key, or the first free one when there is none.
pub data Way (op : JournalOperation) (id : ℕ) (es es' : List Entry) (i : ℕ) : Type 0 where
  found : find_slot op id es ≡ some i → es' ≡ es → Way op id es es' i
  fresh :
      find_slot op id es ≡ Option.none
      → free_slot es ≡ some i
      → es' ≡ set es i (claimed op id (entry_at es i))
      → Way op id es es' i

pub find_or_create-Way :
    (op : JournalOperation) (id : ℕ) (es es' : List Entry) (i : ℕ)
    → find_or_create op id es ≡ some (i, es')
    → Way op id es es' i
unfolding find_or_create
find_or_create-Way op id es es' i h = elim (Option-cases (find_slot op id es)) [
  | inr (k, f) ↦ let e = rw (f, choose) at h in found (f ∙ ground arith) (ground arith)
  | inl n ↦ elim (Option-cases (free_slot es)) [
    | inl full ↦ let e = rw (n, choose, full, create) at h in cc
    | inr (k, f) ↦
        let e = rw (n, choose, f, create) at h in
        let same : k ≡ i = ground arith in fresh n (f ∙ ap some same) (ground arith)
  ]
]

Located-found :
    (op : JournalOperation) (id : ℕ) (es : List Entry) (i : ℕ)
    → has_key op id (entry_at es i) ≡ true
    → Located op id es es i
Located-found op id es i h = record {
  is_used = ground arith;
  has_op = same_operation_eq (entry_at es i).op op (ground arith);
  has_id = ground arith;
  overwrites = λ x. refl;
}

Located-fresh :
    (op : JournalOperation) (id : ℕ) (es : List Entry) (i : ℕ)
    → free_slot es ≡ some i
    → Located op id es (set es i (claimed op id (entry_at es i))) i
Located-fresh op id es i f =
    let e = free_slot-set es i (claimed op id (entry_at es i)) f in
    record {
      is_used = rw e;
      has_op = rw e;
      has_id = rw e;
      overwrites = set-set es i (claimed op id (entry_at es i));
    }

pub find_or_create-Located :
    (op : JournalOperation) (id : ℕ) (es es' : List Entry) (i : ℕ)
    → find_or_create op id es ≡ some (i, es')
    → Located op id es es' i
find_or_create-Located op id es es' i h = elim (find_or_create-Way op id es es' i h) [
  | found f same ↦ rw same (Located-found op id es i (find_slot_key op id es i f))
  | fresh n f same ↦ rw same (Located-fresh op id es i f)
]

-- After an entry is saved in its slot, its key leads there.
pub find_slot-saved :
    (op : JournalOperation) (id : ℕ) (es es' : List Entry) (i : ℕ) (e : Entry)
    → find_or_create op id es ≡ some (i, es')
    → has_key op id e ≡ true
    → (find_slot op id (set es' i e) ≡ some i) × (entry_at (set es' i e) i ≡ e)
unfolding find_slot free_slot
find_slot-saved op id es es' i e h k = elim (find_or_create-Way op id es es' i h) [
  | found f same ↦ rw same (
    find_index-set_found (has_key op id) es i e f k,
    get_or-set es i e blank_entry (find_index-passes (has_key op id) es i blank_entry f).1,
  )
  | fresh n f same ↦
      let below = (find_index-passes is_free es i blank_entry f).1 in
      rw ((find_or_create-Located op id es es' i h).overwrites e)
        (find_index-set_new (has_key op id) es i e n below k, get_or-set es i e blank_entry below)
]

pub same_operation_refl : (op : JournalOperation) → same_operation op op ≡ true
same_operation_refl submit = refl
same_operation_refl cancel = refl
same_operation_refl replace = refl

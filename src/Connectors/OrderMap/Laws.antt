-- ===== src/Connectors/OrderMap/Laws.antt =====
-- `VenueOrderMap` as a finite map from client order ids: what `get` finds after each operation.
use trading_infrastructure_c.Common.{
  ℕ, ◌<◌, ◌≡◌, refl, ap, ◌≢◌, true, false, Option, none, some, List, ◌==◌, length, set, All, arith,
  Bool-cases, Option-cases, ◌⊎◌, inl, inr, if◌then◌else◌,
}
use trading_infrastructure_c.Common.Slots.{
  find_index, find_index-passes, find_index-set_other, find_index-set_found, find_index-set_new,
  find_index-none, get_or-set, get_or-set_other,
}
use trading_infrastructure_c.Connectors.OrderMap.{
  Exchange, VenueOrderEntry, OrderMap, blank_entry, has_id, is_free, entry_at, find, find_free_slot,
  get, new_entry, upsert, entry_of, write_slot, first_slot,
}

-- A write to a slot that does not hold `j`, by an entry that does not, leaves what `get` finds for `j`.
pub get-set_other :
    (m : OrderMap) (i j : ℕ) (e : VenueOrderEntry)
    → has_id j (entry_at m i) ≡ false
    → has_id j e ≡ false
    → get j (set m i e) ≡ get j m
unfolding get find
get-set_other m i j e h n = elim (Option-cases (find_index (has_id j) m)) [
  | inl missing ↦ rw (find_index-set_other (has_id j) m i e blank_entry h n, missing, entry_of) refl
  | inr (k, f) ↦
      let hit = (find_index-passes (has_id j) m k blank_entry f).0 in
      let apart : i ≢ k = λ same. ground (arith, ap (entry_at m) same) in
      rw (find_index-set_other (has_id j) m i e blank_entry h n, f, entry_of)
        (ap some (get_or-set_other m i k e blank_entry apart))
]

-- The slot that `upsert` writes to.
pub data Target (id : ℕ) (m : OrderMap) (i : ℕ) : Type 0 where
  holding : find_index (has_id id) m ≡ some i → Target id m i
  free : find_index (has_id id) m ≡ none → find_index is_free m ≡ some i → Target id m i

pub upsert-Target :
    (id : ℕ) (venue : Option (List ℕ)) (x : Exchange) (symbol : Option (List ℕ)) (m : OrderMap)
    → (((upsert id venue x symbol m).0 ≡ false)
        × (find_index (has_id id) m ≡ none)
        × (find_index is_free m ≡ none)
        × ((upsert id venue x symbol m).1 ≡ m))
      ⊎ ((i : ℕ) × Target id m i
          × ((upsert id venue x symbol m).0 ≡ true)
          × ((upsert id venue x symbol m).1 ≡ set m i (new_entry id venue x symbol)))
unfolding upsert find find_free_slot
upsert-Target id venue x symbol m = elim (Option-cases (find_index (has_id id) m)) [
  | inr (i, f) ↦ inr (i, holding f, rw (f, first_slot, write_slot), rw (f, first_slot, write_slot))
  | inl n ↦ elim (Option-cases (find_index is_free m)) [
    | inl full ↦
        inl (rw (n, first_slot, full, write_slot), n, full, rw (n, first_slot, full, write_slot))
    | inr (i, f) ↦
        inr (i, free n f, rw (n, first_slot, f, write_slot), rw (n, first_slot, f, write_slot))
  ]
]

-- The slot written holds no other id, and is in range.
pub Target-other :
    (id j : ℕ) (m : OrderMap) (i : ℕ) → Target id m i → id ≢ j → has_id j (entry_at m i) ≡ false
Target-other id j m i (holding f) h =
    ground (arith, find_index-passes (has_id id) m i blank_entry f)
Target-other id j m i (free n f) h = ground (arith, find_index-passes is_free m i blank_entry f)

pub Target-found :
    (id : ℕ) (m : OrderMap) (i : ℕ) (e : VenueOrderEntry)
    → Target id m i
    → has_id id e ≡ true
    → (find_index (has_id id) (set m i e) ≡ some i) × (i < length m)
Target-found id m i e (holding f) h = (
  find_index-set_found (has_id id) m i e f h,
  (find_index-passes (has_id id) m i blank_entry f).1,
)
Target-found id m i e (free n f) h =
    let below = (find_index-passes is_free m i blank_entry f).1 in
    (find_index-set_new (has_id id) m i e n below h, below)

get-set-Target :
    (id j : ℕ) (m : OrderMap) (i : ℕ) (e : VenueOrderEntry)
    → Target id m i
    → e.active ≡ true
    → e.client_order_id ≡ id
    → get j (set m i e) ≡ (if id == j then some e else get j m)
unfolding get find
get-set-Target id j m i e t a c = elim (Bool-cases (id == j)) [
  | inl same ↦
      let eq : id ≡ j = ground arith in
      let (f, below) = Target-found id m i e t (ground arith) in
      rw (same, ← eq, f, entry_of) (ap some (get_or-set m i e blank_entry below))
  | inr apart ↦
      let ne : id ≢ j = ground arith in
      rw apart (get-set_other m i j e (Target-other id j m i t ne) (ground arith))
]

-- After an `upsert` that succeeds, its id finds the entry written, with the strings cut to their
-- buffers, and every other id finds what it found before.
pub get-upsert :
    (id j : ℕ) (venue : Option (List ℕ)) (x : Exchange) (symbol : Option (List ℕ)) (m : OrderMap)
    → (upsert id venue x symbol m).0 ≡ true
    → get j (upsert id venue x symbol m).1
      ≡ (if id == j then some (new_entry id venue x symbol) else get j m)
unfolding new_entry
get-upsert id j venue x symbol m h = elim (upsert-Target id venue x symbol m) [
  | inl (no_room, n, full, same) ↦ cc
  | inr (i, t, done, e) ↦ rw e (get-set-Target id j m i (new_entry id venue x symbol) t refl refl)
]

-- `upsert` fails only for a new id on a map whose slots are all active, and then changes nothing.
pub upsert_fails :
    (id : ℕ) (venue : Option (List ℕ)) (x : Exchange) (symbol : Option (List ℕ)) (m : OrderMap)
    → (upsert id venue x symbol m).0 ≡ false
    → (get id m ≡ none) × All (λ e. is_free e ≡ false) m × ((upsert id venue x symbol m).1 ≡ m)
unfolding get find
upsert_fails id venue x symbol m h = elim (upsert-Target id venue x symbol m) [
  | inl (no_room, n, full, same) ↦ (rw (n, entry_of), find_index-none is_free m full, same)
  | inr (i, t, done, e) ↦ cc
]

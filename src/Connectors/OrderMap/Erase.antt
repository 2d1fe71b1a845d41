-- ===== src/Connectors/OrderMap/Erase.antt =====
-- `VenueOrderMap` over histories: no id is ever active twice, so `erase` removes it.
use trading_infrastructure_c.Common.{
  ℕ, zero, suc, ◌≡◌, refl, sym, ap, ◌∙◌, ◌≢◌, true, false, Option, none, some, List, [], ◌∷◌, ◌==◌,
  set, set-set, replicate, arith, Bool-cases, Option-cases, inl, inr, if◌then◌else◌,
}
use trading_infrastructure_c.Common.Slots.{
  find_index, find_index-passes, find_index-set_other, get_or-set_other, set_comm,
}
use trading_infrastructure_c.Connectors.OrderMap.{
  Exchange, VenueOrderEntry, OrderMap, max_entries, empty_map, blank_entry, has_id, is_free,
  entry_at, find, get, new_entry, upsert, erase, clear, entry_of, erase_slot,
}
use trading_infrastructure_c.Connectors.OrderMap.Laws.{
  Target, holding, free, get-set_other, upsert-Target, Target-other, Target-found,
}

-- Once the entry found for an id is blanked, the id is not found again.
abbrev pub Unique : OrderMap → Type 0
Unique m =
    (id i : ℕ)
    → find_index (has_id id) m ≡ some i
    → find_index (has_id id) (set m i blank_entry) ≡ none

-- A write to a slot that has nothing to do with `j` leaves `j` active once at most.
Unique-other :
    (j : ℕ) (m : OrderMap) (k : ℕ) (e : VenueOrderEntry) (i : ℕ)
    → has_id j (entry_at m k) ≡ false
    → has_id j e ≡ false
    → Unique m
    → find_index (has_id j) (set m k e) ≡ some i
    → find_index (has_id j) (set (set m k e) i blank_entry) ≡ none
Unique-other j m k e i h n u f =
    let f' = sym (find_index-set_other (has_id j) m k e blank_entry h n) ∙ f in
    let hit = (find_index-passes (has_id j) m i blank_entry f').0 in
    let apart : k ≢ i = λ same. ground (arith, ap (entry_at m) same) in
    let apart' : i ≢ k = λ same. apart (sym same) in
    let kept = get_or-set_other m i k blank_entry blank_entry apart' in
    rw (set_comm m k i e blank_entry apart) (
      find_index-set_other (has_id j) (set m i blank_entry) k e blank_entry (rw kept h) n
      ∙ u j i f')

Unique-same :
    (id : ℕ) (m : OrderMap) (k : ℕ)
    → Target id m k
    → Unique m
    → find_index (has_id id) (set m k blank_entry) ≡ none
Unique-same id m k (holding f) u = u id k f
Unique-same id m k (free n f) u =
    find_index-set_other (has_id id) m k blank_entry blank_entry
      (ground (arith, find_index-passes is_free m k blank_entry f)) refl
    ∙ n

some_eq : (a b : ℕ) → some a ≡ some b → a ≡ b
some_eq a b h = ground arith

pub Unique-set-Target :
    (id : ℕ) (m : OrderMap) (k : ℕ) (e : VenueOrderEntry)
    → Target id m k
    → e.active ≡ true
    → e.client_order_id ≡ id
    → Unique m
    → Unique (set m k e)
Unique-set-Target id m k e t a c u j i f = elim (Bool-cases (id == j)) [
  | inl same ↦
      let eq : id ≡ j = ground arith in
      let (g, below) = Target-found id m k e t (ground arith) in
      let here : k ≡ i = some_eq k i (sym g ∙ rw (← eq) at f) in
      rw (← here, set-set m k e blank_entry, ← eq) (Unique-same id m k t u)
  | inr apart ↦
      let ne : id ≢ j = ground arith in
      Unique-other j m k e i (Target-other id j m k t ne) (ground arith) u f
]

pub Unique-erase : (m : OrderMap) (id : ℕ) → Unique m → Unique (erase id m).1
unfolding erase find
Unique-erase m id u = elim (Option-cases (find_index (has_id id) m)) [
  | inl missing ↦ rw (missing, erase_slot) u
  | inr (k, g) ↦
      rw (g, erase_slot)
        λ j i f. elim (Bool-cases (id == j)) [
          | inl same ↦
              let eq : id ≡ j = ground arith in
              let gone = u id k g in
              cc (ap (λ (t : ℕ). find_index (has_id t) (set m k blank_entry)) eq)
          | inr apart ↦
              let ne : id ≢ j = ground arith in
              Unique-other j m k blank_entry i (Target-other id j m k (holding g) ne) refl u f
        ]
]

pub Unique-upsert :
    (id : ℕ) (venue : Option (List ℕ)) (x : Exchange) (symbol : Option (List ℕ)) (m : OrderMap)
    → Unique m
    → Unique (upsert id venue x symbol m).1
unfolding new_entry
Unique-upsert id venue x symbol m u = elim (upsert-Target id venue x symbol m) [
  | inl (no_room, n, full, same) ↦ rw same u
  | inr (i, t, done, e) ↦
      rw e (Unique-set-Target id m i (new_entry id venue x symbol) t refl refl u)
]

-- A map whose entries are all blank holds no id.
abbrev IsClear : OrderMap → Type 0
IsClear m = (id : ℕ) → find_index (has_id id) m ≡ none

clear-IsClear : (m : OrderMap) → IsClear (clear m)
unfolding clear find_index
clear-IsClear [] id = refl
clear-IsClear (e ∷ m) id = rw (clear-IsClear m id)

empty-IsClear : (n : ℕ) → IsClear (replicate n blank_entry)
unfolding find_index
empty-IsClear zero id = refl
empty-IsClear (suc n) id = rw (empty-IsClear n id)

Unique-of_clear : (m : OrderMap) → IsClear m → Unique m
Unique-of_clear m c id i f = cc (c id)

pub data Call : Type 0 where
  upserts : ℕ → Option (List ℕ) → Exchange → Option (List ℕ) → Call
  erases : ℕ → Call
  clears : Call

pub step : OrderMap → Call → OrderMap
step m (upserts id venue x symbol) = (upsert id venue x symbol m).1
step m (erases id) = (erase id m).1
step m clears = clear m

pub run : OrderMap → List Call → OrderMap
run m [] = m
run m (c ∷ cs) = run (step m c) cs

step-Unique : (m : OrderMap) (c : Call) → Unique m → Unique (step m c)
unfolding step
step-Unique m (upserts id venue x symbol) u = Unique-upsert id venue x symbol m u
step-Unique m (erases id) u = Unique-erase m id u
step-Unique m clears u = Unique-of_clear (clear m) (clear-IsClear m)

run-Unique : (m : OrderMap) (cs : List Call) → Unique m → Unique (run m cs)
unfolding run
run-Unique m [] u = u
run-Unique m (c ∷ cs) u = run-Unique (step m c) cs (step-Unique m c u)

-- Over any history of a new map no id is active twice.
pub run-empty-Unique : (cs : List Call) → Unique (run empty_map cs)
unfolding empty_map
run-empty-Unique cs = run-Unique empty_map cs (Unique-of_clear _ (empty-IsClear max_entries))

-- On a map with no id active twice, after `erase` its id finds nothing and every other id finds what
-- it found before.
pub get-erase :
    (id j : ℕ) (m : OrderMap)
    → Unique m
    → get j (erase id m).1 ≡ (if id == j then none else get j m)
unfolding erase get find
get-erase id j m u = elim (Option-cases (find_index (has_id id) m)) [
  | inl missing ↦ elim (Bool-cases (id == j)) [
    | inl same ↦
        let eq : id ≡ j = ground arith in rw (missing, erase_slot, same, ← eq, missing, entry_of)
    | inr apart ↦ rw (missing, erase_slot, apart)
  ]
  | inr (i, f) ↦ elim (Bool-cases (id == j)) [
    | inl same ↦
        let eq : id ≡ j = ground arith in rw (f, erase_slot, same, ← eq, u id i f, entry_of)
    | inr apart ↦
        let ne : id ≢ j = ground arith in
        rw (f, erase_slot, apart)
          (get-set_other m i j blank_entry (Target-other id j m i (holding f) ne) refl)
  ]
]

-- ===== src/Connectors/Journal/Recovery.antt =====
-- When a journal and its file agree, and which operations keep them so.
use trading_infrastructure_c.Common.{
  ℕ, ◌==◌, All, ◌≡◌, refl, sym, ap, zero, suc, length, take, ◌∙◌, inl, inr, true, false, Option,
  some, List, [], ◌∷◌, ◌++◌, map, if◌then◌else◌, set, map-set, replicate, arith, Option-cases,
}
use trading_infrastructure_c.Common.Slots.{find_index-map, find_index-passes, All-get_or, All-set}
use trading_infrastructure_c.Connectors.Journal.{
  JournalOperation, JournalState, VenueId, Entry, DiskRecord, Journal, max_records, blank_entry,
  has_key, copy_64, dash, entry_at, find_slot, free_slot, find_or_create, save, line_text,
  append_record, read_records, new_venue_id, ack, fail, replay_record, replay, create, choose,
  is_free, replay_at, ack_at, fail_at,
}
use trading_infrastructure_c.Connectors.Text.{IsWord}
use trading_infrastructure_c.Connectors.Records.Lines.{
  line_of, text_of, HasWord, text_of-snoc, read_records-text_of,
}
use trading_infrastructure_c.Connectors.Journal.Slots.{
  Way, found, fresh, claimed, find_or_create-Way, find_or_create-Located,
}

-- What a record keeps of an entry: the venue id is cut to 63 bytes, and "-" where there is none.
unfoldable pub normal : Entry → Entry
normal e = if e.used then record e { venue_order_id = copy_64 (dash e.venue_order_id) } else e

pub find_slot-normal :
    (op : JournalOperation) (id : ℕ) (es : List Entry)
    → find_slot op id (map normal es) ≡ find_slot op id es
unfolding find_slot normal
find_slot-normal op id es = find_index-map (has_key op id) normal es λ e. ground arith

free_slot-normal : (es : List Entry) → free_slot (map normal es) ≡ free_slot es
unfolding free_slot normal
free_slot-normal es = find_index-map is_free normal es λ e. ground arith

slot_normal :
    (op : JournalOperation) (id : ℕ) (es es' : List Entry) (i : ℕ)
    → Way op id es es' i
    → (es'' : List Entry) × (find_or_create op id (map normal es) ≡ some (i, es''))
unfolding find_or_create
slot_normal op id es es' i (found f same) =
    (map normal es, rw (find_slot-normal op id es, f, choose))
slot_normal op id es es' i (fresh n f same) = (
  set (map normal es) i (claimed op id (entry_at (map normal es) i)),
  rw (find_slot-normal op id es, n, choose, free_slot-normal es, f, create),
)

-- The entry that a record stands for.
abbrev restored : DiskRecord → Entry
restored r = record {
  used = true;
  op = r.op;
  client_order_id = r.client_order_id;
  related_client_order_id = r.related_client_order_id;
  attempt = r.attempt;
  state = r.state;
  venue_order_id = copy_64 r.venue_order_id;
}

replay_restores :
    (es es' : List Entry) (i : ℕ) (r : DiskRecord)
    → r.version ≡ 1
    → find_or_create r.op r.client_order_id es ≡ some (i, es')
    → replay_record es r ≡ set es i (restored r)
unfolding replay_record
replay_restores es es' i r v h =
    let l = find_or_create-Located r.op r.client_order_id es es' i h in
    let one : (r.version == 1) ≡ true = ground arith in
    rw (one, h, replay_at, l.is_used, l.has_op, l.has_id) (l.overwrites (restored r))

-- Replaying the record of an entry that was just saved saves the normal entry.
replay_saved :
    (op : JournalOperation) (id : ℕ) (es es' : List Entry) (i : ℕ) (e : Entry)
    → find_or_create op id es ≡ some (i, es')
    → e.used ≡ true
    → e.op ≡ op
    → e.client_order_id ≡ id
    → replay_record (map normal es) (line_of e) ≡ map normal (set es' i e)
unfolding line_of normal
replay_saved op id es es' i e h u o c =
    let l = find_or_create-Located op id es es' i h in
    let (es'', h') = slot_normal op id es es' i (find_or_create-Way op id es es' i h) in
    let put = replay_restores (map normal es) es'' i (line_of e) refl (rw (o, c) h') in
    let kept : normal e ≡ restored (line_of e) = ground arith in
    put ∙ rw (l.overwrites e, map-set normal es i e, kept)

replay-snoc :
    (es : List Entry) (rs : List DiskRecord) (r : DiskRecord)
    → replay es (rs ++ r ∷ []) ≡ replay_record (replay es rs) r
unfolding replay
replay-snoc es [] r = refl
replay-snoc es (q ∷ rs) r = replay-snoc (replay_record es q) rs r

abbrev pub IsBlank : Entry → Type 0
IsBlank e = e.used ≡ false → e.state ≡ JournalState.none

-- The file has the lines of the entries `written` to it, oldest first, which rebuild the entries; an entry
-- that is not used has not been touched; and no venue id has white space in it.
pub record Consistent (j : Journal) : Type 0 where
  pub written : List Entry
  pub text : j.disk ≡ text_of written
  pub words : All HasWord written
  pub rebuilt :
      replay (replicate max_records blank_entry) (map line_of written) ≡ map normal j.entries
  pub untouched : All IsBlank j.entries
  pub clean : All HasWord j.entries

-- What `recover` replays.
pub read_back :
    (j : Journal)
    → (v : Consistent j)
    → replay (replicate max_records blank_entry) (read_records (suc (length j.disk)) j.disk)
      ≡ map normal j.entries
read_back j v =
    ap (λ text. replay (replicate max_records blank_entry) (read_records (suc (length text)) text))
      v.text
    ∙ ap (replay (replicate max_records blank_entry)) (read_records-text_of v.written v.words)
    ∙ v.rebuilt

entry_at-HasWord : (es : List Entry) (i : ℕ) → All HasWord es → HasWord (entry_at es i)
entry_at-HasWord [] i h = tt
entry_at-HasWord (e ∷ es) zero h = h.0
entry_at-HasWord (e ∷ es) (suc i) h = entry_at-HasWord es i h.1

pub take-IsWord : (n : ℕ) (w : List ℕ) → IsWord w → IsWord (take n w)
take-IsWord zero w h = tt
take-IsWord (suc n) [] h = tt
take-IsWord (suc n) (c ∷ w) h = (h.0, take-IsWord n w h.1)

-- The slot found has no white space either.
pub slot-HasWord :
    (op : JournalOperation) (id : ℕ) (es es' : List Entry) (i : ℕ)
    → All HasWord es
    → find_or_create op id es ≡ some (i, es')
    → HasWord (entry_at es' i)
slot-HasWord op id es es' i h f = to (find_or_create-Way op id es es' i f)
  where
    to : Way op id es es' i → HasWord (entry_at es' i)
    to (found g same) = entry_at-HasWord es' i (rw same h)
    to (fresh n g same) =
        entry_at-HasWord es' i (
          rw same
            (All-set HasWord es i (claimed op id (entry_at es i)) (entry_at-HasWord es i h) h))

pub free_state :
    (es : List Entry) (i : ℕ)
    → All IsBlank es
    → free_slot es ≡ some i
    → (entry_at es i).state ≡ JournalState.none
unfolding free_slot
free_state es i h f =
    let (free, below) = find_index-passes is_free es i blank_entry f in
    All-get_or IsBlank es i blank_entry h below (ground arith)

map-snoc :
    (es : List Entry) (e : Entry) → map line_of (es ++ e ∷ []) ≡ map line_of es ++ line_of e ∷ []
map-snoc [] e = refl
map-snoc (f ∷ es) e = ap (◌∷◌ (line_of f)) (map-snoc es e)

All-snoc : (es : List Entry) (e : Entry) → All HasWord es → HasWord e → All HasWord (es ++ e ∷ [])
All-snoc [] e h w = (w, tt)
All-snoc (f ∷ es) e h w = (h.0, All-snoc es e h.1 w)

pub save-Consistent :
    (op : JournalOperation) (id : ℕ) (es' : List Entry) (i : ℕ) (e : Entry) (j : Journal) (n : ℕ)
    → Consistent j
    → find_or_create op id j.entries ≡ some (i, es')
    → e.used ≡ true
    → e.op ≡ op
    → e.client_order_id ≡ id
    → HasWord e
    → Consistent (save true es' i e (record j { duplicate_ack_count = n }))
unfolding save append_record
save-Consistent op id es' i e j n v h u o c w =
    let l = find_or_create-Located op id j.entries es' i h in
    record {
      written = v.written ++ e ∷ [];
      text = ap (λ text. text ++ line_text e []) v.text ∙ sym (text_of-snoc v.written e);
      words = All-snoc v.written e v.words w;
      rebuilt =
          ap (replay (replicate max_records blank_entry)) (map-snoc v.written e)
          ∙ replay-snoc _ (map line_of v.written) (line_of e)
          ∙ rw v.rebuilt (replay_saved op id j.entries es' i e h u o c);
      untouched = rw (l.overwrites e) (All-set IsBlank j.entries i e (λ f. cc) v.untouched);
      clean = rw (l.overwrites e) (All-set HasWord j.entries i e w v.clean);
    }

pub fail-Consistent :
    (op : JournalOperation) (id related : ℕ) (j : Journal)
    → Consistent j
    → Consistent (fail true op id related j)
unfolding fail
fail-Consistent op id related j v = elim (Option-cases (find_or_create op id j.entries)) [
  | inl full ↦ rw (full, fail_at) v
  | inr ((i, es'), h) ↦
      let l = find_or_create-Located op id j.entries es' i h in
      rw (h, fail_at)
        (save-Consistent op id es' i _ j j.duplicate_ack_count v h l.is_used l.has_op l.has_id
          (slot-HasWord op id j.entries es' i v.clean h))
]

-- That a venue id to be recorded, if there is one, has no white space.
abbrev pub IsClean : Option VenueId → Type 0
IsClean Option.none = Unit
IsClean (some venue) = IsWord venue

new_venue_id-IsWord :
    (venue : Option VenueId) (old : VenueId)
    → IsClean venue
    → IsWord old
    → IsWord (new_venue_id venue old)
unfolding new_venue_id
new_venue_id-IsWord Option.none old h w = w
new_venue_id-IsWord (some venue) old h w = take-IsWord 63 venue h

pub ack-Consistent :
    (op : JournalOperation) (id : ℕ) (venue : Option VenueId) (related : ℕ) (j : Journal)
    → IsClean venue
    → Consistent j
    → Consistent (ack true op id venue related j)
unfolding ack
ack-Consistent op id venue related j k v = elim (Option-cases (find_or_create op id j.entries)) [
  | inl full ↦ rw (full, ack_at) v
  | inr ((i, es'), h) ↦
      let l = find_or_create-Located op id j.entries es' i h in
      rw (h, ack_at)
        (save-Consistent op id es' i _ j _ v h l.is_used l.has_op l.has_id (
          new_venue_id-IsWord venue (entry_at es' i).venue_order_id k
            (slot-HasWord op id j.entries es' i v.clean h)))
]

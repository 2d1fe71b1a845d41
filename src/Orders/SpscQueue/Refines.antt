-- ===== src/Orders/SpscQueue/Refines.antt =====
-- What the ring of `SpscQueue` holds, as a list, and that `push` and `pop` are the queue's operations.
use native.Mathlib.Nat.{add-mod_right, mod-add-mod, mod-eq_of_lt, mod-eq-sub-mod, mod-lt}
use native.Mathlib.Decide.{dec_lt}
use trading_infrastructure_c.Common.{
  ℕ, zero, suc, ◌+◌, ◌-◌, ◌%◌, ◌≤◌, ◌<◌, ◌≡◌, refl, sym, ap, ◌∙◌, ◌≢◌, List, [], ◌∷◌, ◌++◌, true,
  false, none, some, ◌==◌, update, length, length-append, arith,
}
use trading_infrastructure_c.Orders.SpscQueue.{SpscQueue, push, pop}

-- The slots from `i` on hold the items of the list.
abbrev pub Holds : {A : Type 0} → ℕ → (ℕ → A) → ℕ → List A → Type 0
Holds n buf i [] = Unit
Holds n buf i (x ∷ xs) = (buf i ≡ x) × Holds n buf ((i + 1) % n) xs

pub mod_wrap : (n i k : ℕ) → ((i + 1) % n + k) % n ≡ (i + suc k) % n
mod_wrap n i k = mod-add-mod (i + 1) n k ∙ ap (λ (t : ℕ). t % n) (omega arith)

-- Fewer than `n` steps round a ring of `n` slots lead to another slot.
pub slot_ne : (n i k : ℕ) → i < n → 0 < k → k < n → (i + k) % n ≢ i
slot_ne n i k h p l e = elim (dec_lt (i + k) n) [
  | yes near ↦ omega (arith, mod-eq_of_lt near)
  | no far ↦ omega (
    arith,
    mod-eq-sub-mod {n = i + k} {m = n} (omega arith),
    mod-eq_of_lt {n = i + k - n} {m = n} (omega arith),
  )
]

-- Where the index after `write` stands, and when it meets `read`.
pub write_next : (n r k w : ℕ) → w ≡ (r + k) % n → (w + 1) % n ≡ (r + suc k) % n
write_next n r k w e =
    ap (λ (t : ℕ). (t + 1) % n) e ∙ mod-add-mod (r + k) n 1 ∙ ap (λ (t : ℕ). t % n) (omega arith)

pub write_next_full : (n r k w : ℕ) → w ≡ (r + k) % n → r < n → suc k ≡ n → (w + 1) % n ≡ r
write_next_full n r k w e h f =
    write_next n r k w e ∙ ap (λ (t : ℕ). (r + t) % n) f ∙ add-mod_right r n ∙ mod-eq_of_lt h

pub write_next_room : (n r k w : ℕ) → w ≡ (r + k) % n → r < n → suc k < n → (w + 1) % n ≢ r
write_next_room n r k w e h f m =
    slot_ne n r (suc k) h (omega arith) f (sym (write_next n r k w e) ∙ m)

pub read_next : (n r k w : ℕ) → w ≡ (r + suc k) % n → w ≡ ((r + 1) % n + k) % n
read_next n r k w e = e ∙ sym (mod_wrap n r k)

module _ {A : Type 0} where
  pub record Represents (q : SpscQueue A) (live : List A) : Type 0 where
    pub two_slots : 2 ≤ q.capacity
    pub read_range : q.read < q.capacity
    pub write_place : q.write ≡ (q.read + length live) % q.capacity
    pub room : length live < q.capacity
    pub holds : Holds q.capacity q.buf q.read live

  -- A write past the end of the list changes none of its slots.
  pub Holds-update :
      (n : ℕ) (buf : ℕ → A) (v : A) (i k w : ℕ) (xs : List A)
      → w ≡ (i + k) % n
      → i < n
      → length xs ≤ k
      → k < n
      → Holds n buf i xs
      → Holds n (update buf w v) i xs
  Holds-update n buf v i k w [] e hi hl hk h = tt
  Holds-update n buf v i zero w (x ∷ xs) e hi hl hk h = absurd (omega arith)
  Holds-update n buf v i (suc k) w (x ∷ xs) e hi hl hk h = (
    ground (arith, slot_ne n i (suc k)),
    Holds-update n buf v ((i + 1) % n) k w xs (e ∙ sym (mod_wrap n i k))
        (mod-lt (i + 1) (omega arith)) (omega arith) (omega arith) h.1,
  )

  pub Holds-snoc :
      (n : ℕ) (buf : ℕ → A) (v : A) (i : ℕ) (xs : List A)
      → i < n
      → Holds n buf i xs
      → buf ((i + length xs) % n) ≡ v
      → Holds n buf i (xs ++ v ∷ [])
  Holds-snoc n buf v i [] hi h e =
      (ap buf (sym (mod-eq_of_lt hi) ∙ ap (λ (t : ℕ). t % n) (omega arith)) ∙ e, tt)
  Holds-snoc n buf v i (x ∷ xs) hi h e = (
    h.0,
    Holds-snoc n buf v ((i + 1) % n) xs (mod-lt (i + 1) (omega arith)) h.1
        (ap buf (mod_wrap n i (length xs)) ∙ e),
  )

  -- The slot at `write` is free: filling it changes nothing that the ring holds.
  pub filled-Represents :
      (q : SpscQueue A) (live : List A) (x : A)
      → Represents q live
      → Represents (record q { buf = update q.buf q.write x }) live
  filled-Represents q live x r = record {
    two_slots = r.two_slots;
    read_range = r.read_range;
    write_place = r.write_place;
    room = r.room;
    holds =
        Holds-update q.capacity q.buf x q.read (length live) q.write live r.write_place r.read_range
          (omega arith) r.room r.holds;
  }

  -- When `write` moves past a filled slot, the ring holds one more item.
  pub published-Represents :
      (q : SpscQueue A) (live : List A) (x : A)
      → Represents q live
      → length live + 1 < q.capacity
      → q.buf q.write ≡ x
      → Represents (record q { write = (q.write + 1) % q.capacity }) (live ++ x ∷ [])
  published-Represents q live x r f e = record {
    two_slots = r.two_slots;
    read_range = r.read_range;
    write_place =
        write_next q.capacity q.read (length live) q.write r.write_place
        ∙ ap (λ (t : ℕ). (q.read + t) % q.capacity) (omega (arith, length-append live (x ∷ [])));
    room = omega (arith, length-append live (x ∷ []));
    holds =
        Holds-snoc q.capacity q.buf x q.read live r.read_range r.holds
          (ap q.buf (sym r.write_place) ∙ e);
  }

  -- After `read` moves on, the ring holds one item less.
  pub taken-Represents :
      (q : SpscQueue A) (x : A) (rest : List A)
      → Represents q (x ∷ rest)
      → Represents (record q { read = (q.read + 1) % q.capacity }) rest
  taken-Represents q x rest r = record {
    two_slots = r.two_slots;
    read_range = mod-lt (q.read + 1) (omega (arith, r.two_slots));
    write_place = read_next q.capacity q.read (length rest) q.write r.write_place;
    room = omega (arith, r.room);
    holds = r.holds.1;
  }

  pub empty_meets : (q : SpscQueue A) → Represents q [] → q.read ≡ q.write
  empty_meets q r =
      sym (r.write_place ∙ ap (λ (t : ℕ). t % q.capacity) (omega arith) ∙ mod-eq_of_lt r.read_range)

  pub nonempty_apart :
      (q : SpscQueue A) (x : A) (rest : List A) → Represents q (x ∷ rest) → q.read ≢ q.write
  nonempty_apart q x rest r e =
      slot_ne q.capacity q.read (suc (length rest)) r.read_range (omega arith) r.room
        (sym r.write_place ∙ sym e)

  -- A full ring refuses the item and stays as it is.
  pub push_full :
      (q : SpscQueue A) (live : List A) (x : A)
      → Represents q live
      → length live + 1 ≡ q.capacity
      → push x q ≡ (false, q)
  unfolding push
  push_full q live x r f =
      ground (arith, write_next_full q.capacity q.read (length live) q.write r.write_place)

  -- Otherwise the item goes to the end.
  pub push_room :
      (q : SpscQueue A) (live : List A) (x : A)
      → Represents q live
      → length live + 1 < q.capacity
      → ((push x q).0 ≡ true) × Represents (push x q).1 (live ++ x ∷ [])
  unfolding push
  push_room q live x r f = rw (apart, push) (refl, stored)
    where
      apart : ((q.write + 1) % q.capacity == q.read) ≡ false
      apart = ground (
        arith,
        write_next_room q.capacity q.read (length live) q.write r.write_place r.read_range,
      )

      stored :
          Represents
            (record q { buf = update q.buf q.write x; write = (q.write + 1) % q.capacity })
            (live ++ x ∷ [])
      stored =
          published-Represents (record q { buf = update q.buf q.write x }) live x
            (filled-Represents q live x r) f (ground arith)

  pub pop_empty : (q : SpscQueue A) → Represents q [] → pop q ≡ none
  unfolding pop
  pop_empty q r = ground (arith, empty_meets q r)

  pub pop_next :
      (q : SpscQueue A) (x : A) (rest : List A)
      → Represents q (x ∷ rest)
      → (q' : SpscQueue A) × (pop q ≡ some (x, q')) × Represents q' rest
  unfolding pop
  pop_next q x rest r = (
    record q { read = (q.read + 1) % q.capacity },
    ground (arith, nonempty_apart q x rest r),
    taken-Represents q x rest r,
  )

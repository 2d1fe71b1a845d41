-- ===== src/Orders/SpscQueue/Threads.antt =====
-- The two threads of `SpscQueue`, interleaved at each access to shared memory. The producer reads
-- `write_`, reads `read_`, writes a slot and publishes `write_`; the consumer reads `read_`, reads
-- `write_`, reads a slot and publishes `read_`. The acquire and release orders of the source make
-- these accesses appear in one order, which the step relation takes as given.
use native.Mathlib.Nat.{mod-eq_of_lt}
use mathlib.Core.Path.{subst}
use trading_infrastructure_c.Common.{
  ℕ, ◌+◌, ◌≤◌, ◌<◌, ◌≡◌, refl, sym, ap, ◌∙◌, ◌≢◌, List, [], ◌∷◌, ◌++◌, update, length, append_assoc,
  arith,
}
use trading_infrastructure_c.Orders.SpscQueue.{SpscQueue, next_index, init}
use trading_infrastructure_c.Orders.SpscQueue.Refines.{
  Represents, filled-Represents, published-Represents, taken-Represents, empty_meets,
  nonempty_apart, write_next_full,
}

-- Where each thread stands in its call. `w` and `r` are the values it has loaded.
pub data Producer (A : Type 0) : Type 0 where
  resting : Producer A
  loaded : A → ℕ → Producer A
  admitted : A → ℕ → Producer A
  filled : A → ℕ → Producer A

pub data Consumer (A : Type 0) : Type 0 where
  resting : Consumer A
  loaded : ℕ → Consumer A
  admitted : ℕ → Consumer A
  taken : ℕ → A → Consumer A

pub record System (A : Type 0) : Type 0 where
  pub queue : SpscQueue A
  pub producer : Producer A
  pub consumer : Consumer A
  pub sent : List A
  pub received : List A

module _ {A : Type 0} where
  pub data Step (s : System A) : System A → Type 0 where
    load_write :
        (x : A)
        → s.producer ≡ Producer.resting
        → Step s (record s { producer = Producer.loaded x s.queue.write })
    refuse :
        (x : A) (w : ℕ)
        → s.producer ≡ Producer.loaded x w
        → next_index s.queue w ≡ s.queue.read
        → Step s (record s { producer = Producer.resting })
    admit :
        (x : A) (w : ℕ)
        → s.producer ≡ Producer.loaded x w
        → next_index s.queue w ≢ s.queue.read
        → Step s (record s { producer = Producer.admitted x w })
    fill :
        (x : A) (w : ℕ)
        → s.producer ≡ Producer.admitted x w
        → Step s (record s {
          queue = record (s.queue) { buf = update s.queue.buf w x };
          producer = Producer.filled x w;
        })
    publish :
        (x : A) (w : ℕ)
        → s.producer ≡ Producer.filled x w
        → Step s (record s {
          queue = record (s.queue) { write = next_index s.queue w };
          producer = Producer.resting;
          sent = s.sent ++ x ∷ [];
        })
    load_read :
        s.consumer ≡ Consumer.resting
        → Step s (record s { consumer = Consumer.loaded s.queue.read })
    find_empty :
        (r : ℕ)
        → s.consumer ≡ Consumer.loaded r
        → r ≡ s.queue.write
        → Step s (record s { consumer = Consumer.resting })
    find_item :
        (r : ℕ)
        → s.consumer ≡ Consumer.loaded r
        → r ≢ s.queue.write
        → Step s (record s { consumer = Consumer.admitted r })
    take_item :
        (r : ℕ)
        → s.consumer ≡ Consumer.admitted r
        → Step s (record s { consumer = Consumer.taken r (s.queue.buf r) })
    release :
        (r : ℕ) (x : A)
        → s.consumer ≡ Consumer.taken r x
        → Step s (record s {
          queue = record (s.queue) { read = next_index s.queue r };
          consumer = Consumer.resting;
          received = s.received ++ x ∷ [];
        })

  pub data Reach (s : System A) : System A → Type 0 where
    here : Reach s s
    next : {t u : System A} → Reach s t → Step t u → Reach s u

  -- What each thread knows while it is inside its call: `w` and `r` are still the published indices,
  -- the admitted producer has a free slot, the admitted consumer an item.
  abbrev pub ProducerOk : ℕ → ℕ → (ℕ → A) → List A → Producer A → Type 0
  ProducerOk n write buf live Producer.resting = Unit
  ProducerOk n write buf live (Producer.loaded x w) = (w ≡ write) × Unit {0}
  ProducerOk n write buf live (Producer.admitted x w) = (w ≡ write) × (length live + 1 < n)
  ProducerOk n write buf live (Producer.filled x w) =
      (w ≡ write) × (length live + 1 < n) × (buf w ≡ x)

  abbrev pub ConsumerOk : ℕ → List A → Consumer A → Type 0
  ConsumerOk read live Consumer.resting = Unit
  ConsumerOk read live (Consumer.loaded r) = (r ≡ read) × Unit {0}
  ConsumerOk read live (Consumer.admitted r) =
      (r ≡ read) × (y : A) × (ys : List A) × (live ≡ y ∷ ys)
  ConsumerOk read live (Consumer.taken r x) = (r ≡ read) × (ys : List A) × (live ≡ x ∷ ys)

  pub record Safe (s : System A) (live : List A) : Type 0 where
    pub ring : Represents s.queue live
    pub in_push : ProducerOk s.queue.capacity s.queue.write s.queue.buf live s.producer
    pub in_pop : ConsumerOk s.queue.read live s.consumer
    pub account : s.sent ≡ s.received ++ live

  -- A publication leaves the consumer its item, and a release leaves the producer its slot.
  ConsumerOk-snoc :
      (read : ℕ) (live : List A) (x : A) (c : Consumer A)
      → ConsumerOk read live c
      → ConsumerOk read (live ++ x ∷ []) c
  ConsumerOk-snoc read live x Consumer.resting h = tt
  ConsumerOk-snoc read live x (Consumer.loaded r) h = h
  ConsumerOk-snoc read live x (Consumer.admitted r) (e, y, ys, l) =
      (e, y, ys ++ x ∷ [], ap (λ (zs : List A). zs ++ x ∷ []) l)
  ConsumerOk-snoc read live x (Consumer.taken r y) (e, ys, l) =
      (e, ys ++ x ∷ [], ap (λ (zs : List A). zs ++ x ∷ []) l)

  ProducerOk-tail :
      (n write : ℕ) (buf : ℕ → A) (x : A) (live : List A) (p : Producer A)
      → ProducerOk n write buf (x ∷ live) p
      → ProducerOk n write buf live p
  ProducerOk-tail n write buf x live Producer.resting h = tt
  ProducerOk-tail n write buf x live (Producer.loaded y w) h = h
  ProducerOk-tail n write buf x live (Producer.admitted y w) h = omega arith
  ProducerOk-tail n write buf x live (Producer.filled y w) h = (h.0, omega arith, h.2)

  nonempty_of_apart :
      (q : SpscQueue A) (live : List A)
      → Represents q live
      → q.read ≢ q.write
      → (y : A) × (ys : List A) × (live ≡ y ∷ ys)
  nonempty_of_apart q [] r h = absurd (h (empty_meets q r))
  nonempty_of_apart q (y ∷ ys) r h = (y, ys, refl)

  room_of_apart :
      (q : SpscQueue A) (live : List A)
      → Represents q live
      → next_index q q.write ≢ q.read
      → length live + 1 < q.capacity
  unfolding next_index
  room_of_apart q live r h = ground (
    arith,
    r.room,
    write_next_full q.capacity q.read (length live) q.write r.write_place r.read_range,
  )

  -- Every access of either thread keeps the ring, the two calls and the account of items in order.
  pub Step-Safe :
      {s t : System A} → Step s t → (live : List A) → Safe s live → (live' : List A) × Safe t live'
  unfolding next_index
  Step-Safe {s} (load_write x e) live v =
      (live, record { ring = v.ring; in_push = (refl, tt); in_pop = v.in_pop; account = v.account })
  Step-Safe {s} (refuse x w e full) live v =
      (live, record { ring = v.ring; in_push = tt; in_pop = v.in_pop; account = v.account })
  Step-Safe {s} (admit x w e apart) live v =
      let known = rw e at v.in_push in
      (
        live,
        record {
          ring = v.ring;
          in_push = (known.0, room_of_apart s.queue live v.ring (rw known.0 at apart));
          in_pop = v.in_pop;
          account = v.account;
        },
      )
  Step-Safe {s} (fill x w e) live v =
      let known = rw e at v.in_push in
      (
        live,
        rw known.0 (record {
          ring = filled-Represents s.queue live x v.ring;
          in_push = (refl, known.1, ground arith);
          in_pop = v.in_pop;
          account = v.account;
        }),
      )
  Step-Safe {s} (publish x w e) live v =
      let known = rw e at v.in_push in
      (
        live ++ x ∷ [],
        rw known.0 (record {
          ring = published-Represents s.queue live x v.ring known.1 (rw known.0 at known.2);
          in_push = tt;
          in_pop = ConsumerOk-snoc s.queue.read live x s.consumer v.in_pop;
          account = rw v.account (append_assoc s.received live (x ∷ []));
        }),
      )
  Step-Safe {s} (load_read e) live v = (
    live,
    record { ring = v.ring; in_push = v.in_push; in_pop = (refl, tt); account = v.account },
  )
  Step-Safe {s} (find_empty r e none_left) live v =
      (live, record { ring = v.ring; in_push = v.in_push; in_pop = tt; account = v.account })
  Step-Safe {s} (find_item r e apart) live v =
      let known = rw e at v.in_pop in
      let (y, ys, l) = nonempty_of_apart s.queue live v.ring (rw known.0 at apart) in
      (
        live,
        record {
          ring = v.ring;
          in_push = v.in_push;
          in_pop = (known.0, y, ys, l);
          account = v.account;
        },
      )
  Step-Safe {s} (take_item r e) live v =
      let (here', y, ys, l) = rw e at v.in_pop in
      let ring = rw l at v.ring in
      (
        live,
        record {
          ring = v.ring;
          in_push = v.in_push;
          in_pop = (here', ys, rw (here', ring.holds.0) l);
          account = v.account;
        },
      )
  Step-Safe {s} (release r x e) live v =
      let (here', ys, l) = rw e at v.in_pop in
      (
        ys,
        rw here' (record {
          ring = taken-Represents s.queue x ys (rw l at v.ring);
          in_push =
              ProducerOk-tail s.queue.capacity s.queue.write s.queue.buf x ys s.producer
                (rw l at v.in_push);
          in_pop = tt;
          account = rw (v.account, l) (sym (append_assoc s.received (x ∷ []) ys));
        }),
      )

  Reach-Safe :
      {s t : System A} (live : List A) → Safe s live → Reach s t → (live' : List A) × Safe t live'
  Reach-Safe live v here = (live, v)
  Reach-Safe live v (next r step) = let (mid, w) = Reach-Safe live v r in Step-Safe step mid w

  -- Both threads at rest on an empty ring, as the constructor leaves them.
  unfoldable pub start : ℕ → (ℕ → A) → System A
  unfolding init
  start n buf = record {
    queue = init n buf;
    producer = Producer.resting;
    consumer = Consumer.resting;
    sent = [];
    received = [];
  }

  start-Safe : (n : ℕ) (buf : ℕ → A) → 2 ≤ n → Safe (start n buf) []
  unfolding start
  start-Safe n buf h = record {
    ring = record {
      two_slots = h;
      read_range = omega arith;
      write_place = sym (mod-eq_of_lt (omega arith));
      room = omega arith;
      holds = tt;
    };
    in_push = tt;
    in_pop = tt;
    account = refl;
  }

  -- In every interleaving of the two threads, from an empty ring of at least two slots, what was
  -- published is what was received followed by the fewer than `n` items still in the ring, in order:
  -- no item is lost, repeated or reordered.
  pub threads_fifo :
      (n : ℕ) (buf : ℕ → A) (s : System A)
      → 2 ≤ n
      → Reach (start n buf) s
      → (live : List A) × (s.sent ≡ s.received ++ live) × (length live < s.queue.capacity)
  threads_fifo n buf s h r =
      let (live, v) = Reach-Safe [] (start-Safe n buf h) r in (live, v.account, v.ring.room)

  -- In every interleaving the slot that the producer is about to write is never the one that the
  -- consumer is about to read.
  pub threads_apart :
      (n : ℕ) (buf : ℕ → A) (s : System A) (x : A) (w r : ℕ)
      → 2 ≤ n
      → Reach (start n buf) s
      → s.producer ≡ Producer.admitted x w
      → s.consumer ≡ Consumer.admitted r
      → w ≢ r
  threads_apart n buf s x w r h path p c e =
      let (live, v) = Reach-Safe [] (start-Safe n buf h) path in
      let (at_write, room) =
        subst (ProducerOk s.queue.capacity s.queue.write s.queue.buf live) p v.in_push in
      let (at_read, y, ys, l) = subst (ConsumerOk s.queue.read live) c v.in_pop in
      nonempty_apart s.queue y ys (rw l at v.ring) (sym at_read ∙ sym e ∙ at_write)

-- ===== src/Orders/SpscQueue/Fifo.antt =====
-- The bounded first-in first-out queue that `SpscQueue` promises, and histories of calls on both.
use trading_infrastructure_c.Common.{
  ℕ, ◌+◌, ◌≡◌, refl, inl, inr, List, [], ◌∷◌, ◌++◌, Bool, true, false, Option, none, some, ltb,
  if◌then◌else◌, length, arith, Bool-cases, ltb→lt,
}
use trading_infrastructure_c.Orders.SpscQueue.{SpscQueue, push, pop}
use trading_infrastructure_c.Orders.SpscQueue.Refines.{
  Represents, push_full, push_room, pop_empty, pop_next,
}

pub data Call (A : Type 0) : Type 0 where
  pushes : A → Call A
  pops : Call A

pub data Answer (A : Type 0) : Type 0 where
  pushed : Bool → Answer A
  popped : Option A → Answer A

module _ {A : Type 0} where
  -- The specification: a list that holds at most `n - 1` items.
  pub fifo_run : ℕ → List A → List (Call A) → List (Answer A)
  fifo_run n live [] = []
  fifo_run n live (pushes x ∷ cs) =
      if ltb (length live + 1) n
      then pushed true ∷ fifo_run n (live ++ x ∷ []) cs
      else pushed false ∷ fifo_run n live cs
  fifo_run n [] (pops ∷ cs) = popped none ∷ fifo_run n [] cs
  fifo_run n (x ∷ live) (pops ∷ cs) = popped (some x) ∷ fifo_run n live cs

  answer_pop : SpscQueue A → Option (A × SpscQueue A) → Answer A × SpscQueue A
  answer_pop q none = (popped none, q)
  answer_pop q (some (x, q')) = (popped (some x), q')

  pub call : SpscQueue A → Call A → Answer A × SpscQueue A
  unfolding answer_pop
  call q (pushes x) = (pushed (push x q).0, (push x q).1)
  call q pops = answer_pop q (pop q)

  pub run : SpscQueue A → List (Call A) → List (Answer A)
  run q [] = []
  run q (c ∷ cs) = (call q c).0 ∷ run (call q c).1 cs

  capacity-push : (q : SpscQueue A) (x : A) → (push x q).1.capacity ≡ q.capacity
  unfolding push
  capacity-push q x = ground arith

  pop_capacity : (q q' : SpscQueue A) (x : A) → pop q ≡ some (x, q') → q'.capacity ≡ q.capacity
  unfolding pop
  pop_capacity q q' x e = ground arith

  -- Any history of calls gets from the ring the answers of the bounded queue.
  pub run-fifo :
      (q : SpscQueue A) (live : List A) (cs : List (Call A))
      → Represents q live
      → run q cs ≡ fifo_run q.capacity live cs
  unfolding run fifo_run call
  run-fifo q live [] r = refl
  run-fifo q live (pushes x ∷ cs) r = elim (Bool-cases (ltb (length live + 1) q.capacity)) [
    | inl room ↦
        let (told, kept) = push_room q live x r (ltb→lt _ _ room) in
        let rest = run-fifo (push x q).1 (live ++ x ∷ []) cs kept in
        rw (room, told, rest, capacity-push q x)
    | inr full ↦
        let e = push_full q live x r (ground (arith, r.room)) in rw (full, e, run-fifo q live cs r)
  ]
  run-fifo q [] (pops ∷ cs) r = rw (pop_empty q r, answer_pop, run-fifo q [] cs r)
  run-fifo q (x ∷ live) (pops ∷ cs) r =
      let (q', e, kept) = pop_next q x live r in
      rw (e, answer_pop, run-fifo q' live cs kept, pop_capacity q q' x e)

-- ===== src/Orders/Examples.antt =====
-- The theorems on the order queue and the parent plan at concrete queues, plans and calls.
use trading_infrastructure_c.Common.{
  ℕ, ◌<◌, ◌≡◌, refl, List, [], ◌∷◌, ◌++◌, update, true, false, length, arith,
}
use trading_infrastructure_c.Common.Int.{ℤ, pos, ◌+ℤ◌, ◌-ℤ◌, abs_ℤ}
use trading_infrastructure_c.Orders.SpscQueue.{init, next_index}
use trading_infrastructure_c.Orders.SpscQueue.Refines.{Represents}
use trading_infrastructure_c.Orders.SpscQueue.Fifo.{pushes, pops, run, fifo_run, run-fifo}
use trading_infrastructure_c.Orders.SpscQueue.Threads.{
  System, Producer, Consumer, Reach, Step, start, threads_fifo,
}
use trading_infrastructure_c.Orders.ParentPlan.{
  Side, Urgency, PlanState, PlanAction, Plan, UpdateResult, Manager, update_target, on_child_fill,
}
use trading_infrastructure_c.Orders.ParentPlan.Hazards.{
  stale_fill_completes, open_target_completes_early,
}

abbrev written : ℕ
written = 1

abbrev slots : ℕ → ℕ
slots i = 0

two_slots-Represents : Represents (init 2 slots) []
unfolding init
two_slots-Represents = record {
  two_slots = omega arith;
  read_range = omega arith;
  write_place = refl;
  room = omega arith;
  holds = tt;
}

run-fifo_example :
    run (init 2 slots) (pushes 7 ∷ pushes 8 ∷ pops ∷ pops ∷ [])
    ≡ fifo_run 2 [] (pushes 7 ∷ pushes 8 ∷ pops ∷ pops ∷ [])
unfolding init
run-fifo_example =
    run-fifo (init 2 slots) [] (pushes 7 ∷ pushes 8 ∷ pops ∷ pops ∷ []) two_slots-Represents

-- The producer has written an item; the consumer waits.
abbrev one_sent : System ℕ
one_sent = record {
  queue = record { capacity = 3; write = 1; read = 0; buf = update slots 0 7 };
  producer = Producer.resting;
  consumer = Consumer.resting;
  sent = 7 ∷ [];
  received = [];
}

-- The producer is about to write while the consumer is about to read.
abbrev both_inside : System ℕ
both_inside = record {
  queue = record { capacity = 3; write = 1; read = 0; buf = update slots 0 7 };
  producer = Producer.admitted 8 1;
  consumer = Consumer.admitted 0;
  sent = 7 ∷ [];
  received = [];
}

one_sent-Reach : Reach (start 3 slots) one_sent
unfolding start init next_index
one_sent-Reach =
    Reach.next
      (Reach.next
        (Reach.next (Reach.next Reach.here (Step.load_write 7 refl))
          (Step.admit 7 0 refl λ h. omega arith))
        (Step.fill 7 0 refl))
      (Step.publish 7 0 refl)

both_inside-Reach : Reach (start 3 slots) both_inside
unfolding next_index
both_inside-Reach =
    Reach.next
      (Reach.next
        (Reach.next (Reach.next one_sent-Reach (Step.load_write 8 refl))
          (Step.admit 8 1 refl λ h. omega arith))
        (Step.load_read refl))
      (Step.find_item 0 refl λ (h : 0 ≡ written). omega arith)

threads_fifo_example :
    (live : List ℕ) × (one_sent.sent ≡ one_sent.received ++ live)
    × (length live < one_sent.queue.capacity)
threads_fifo_example = threads_fifo 3 slots one_sent (omega arith) one_sent-Reach

-- A plan to buy 10 units, of which 4 are filled, and the result object with nothing in it.
abbrev plan_of_ten : Plan
plan_of_ten = record {
  plan_id = 1;
  side = Side.bid;
  total_qty = pos 10;
  filled_qty = pos 4;
  remaining_qty = pos 6;
  urgency = Urgency.balanced;
  allow_passive = true;
  allow_aggressive = true;
  created_at = 0;
  deadline = 100;
  state = PlanState.working;
  revision = 1;
}

abbrev manager : ℤ → Manager
manager threshold = record {
  cfg = record {
    replace_qty_threshold = threshold;
    default_deadline = 100;
    min_deadline_extension = 10;
  };
  plan = plan_of_ten;
  next_plan_id = 2;
}

abbrev idle_manager : Manager
idle_manager = record (manager (pos 0)) { plan = record plan_of_ten { state = PlanState.idle } }

abbrev blank : UpdateResult
blank = record {
  action = PlanAction.none;
  plan = plan_of_ten;
  should_cancel_working_children = false;
  deadline_passed = false;
}

stale_fill_completes_example :
    (on_child_fill
      (pos 1)
      (update_target blank (pos 50) (pos 10) Urgency.balanced 5 50 idle_manager).0).plan.state
    ≡ PlanState.completed
unfolding abs_ℤ
stale_fill_completes_example =
    stale_fill_completes blank (pos 50) (pos 10) (pos 1) Urgency.balanced 5 50 idle_manager
      (λ h. cc) (omega arith) (omega arith) (omega arith)

open_target_completes_early_example :
    (on_child_fill
      (pos 2)
      (update_target blank (pos 0) (pos 6) Urgency.balanced 5 50 (manager (pos 5))).0).plan.state
    ≡ PlanState.completed
unfolding ◌+ℤ◌ ◌-ℤ◌
open_target_completes_early_example =
    open_target_completes_early blank (pos 0) (pos 2) Urgency.balanced 5 50 6 (manager (pos 5)) refl
      (omega arith) refl refl (omega arith) (omega arith) (omega arith) (omega arith) (omega arith)

-- ===== src/Orders/ParentPlan/Hazards.antt =====
-- Where the plan that the source keeps is not the plan that its caller means.
use trading_infrastructure_c.Common.{ℕ, ◌<◌, ◌≡◌, ◌≢◌, true, arith}
use trading_infrastructure_c.Common.Int.{
  ℤ, pos, ◌≤ℤ◌, ◌<ℤ◌, ◌+ℤ◌, ◌-ℤ◌, max_ℤ, abs_ℤ, abs_nonneg, abs-pos, +ℤ_parts,
}
use trading_infrastructure_c.Orders.ParentPlan.Fills.{fill_reaches_total}
use trading_infrastructure_c.Orders.ParentPlan.{
  Side, Urgency, Manager, UpdateResult, PlanState, PlanAction, epsilon, maybe_expire, update_target,
  install, adjust, retarget, on_child_fill,
}

-- A threshold of 0, which the default configuration has, makes every target for a working plan,
-- also one that is equal to its own, replace the plan and cancel its children.
pub zero_threshold_replaces :
    (fresh : UpdateResult) (memory delta : ℤ) (u : Urgency) (now deadline : ℕ) (m : Manager)
    → m.cfg.replace_qty_threshold ≡ pos 0
    → m.plan.state ≡ PlanState.working
    → now < m.plan.deadline
    → epsilon <ℤ abs_ℤ delta
    → let (m', r) = update_target fresh memory delta u now deadline m in
      (r.action ≡ PlanAction.replaced)
      × (r.should_cancel_working_children ≡ true)
      × (m'.plan.plan_id ≡ m.next_plan_id)
      × (m'.plan.filled_qty ≡ memory)
unfolding update_target maybe_expire retarget install
zero_threshold_replaces fresh memory delta u now deadline m z w d h =
    ground (arith, abs_nonneg (m.plan.total_qty -ℤ abs_ℤ delta))

record Created (m m' : Manager) (memory delta : ℤ) : Type 0 where
  works : m'.plan.state ≡ PlanState.working
  total : m'.plan.total_qty ≡ abs_ℤ delta
  filled : m'.plan.filled_qty ≡ memory

target-Created :
    (fresh : UpdateResult) (memory delta : ℤ) (u : Urgency) (now deadline : ℕ) (m : Manager)
    → m.plan.state ≢ PlanState.working
    → epsilon <ℤ abs_ℤ delta
    → Created m (update_target fresh memory delta u now deadline m).0 memory delta
unfolding update_target maybe_expire retarget install
target-Created fresh memory delta u now deadline m w h = ground arith

-- A plan built over memory that holds at least the requested quantity is COMPLETED by its first
-- child fill, however small.
pub stale_fill_completes :
    (fresh : UpdateResult) (memory delta fill : ℤ) (u : Urgency) (now deadline : ℕ) (m : Manager)
    → m.plan.state ≢ PlanState.working
    → epsilon <ℤ abs_ℤ delta
    → abs_ℤ delta ≤ℤ memory
    → pos 0 <ℤ fill
    → (on_child_fill fill (update_target fresh memory delta u now deadline m).0).plan.state
      ≡ PlanState.completed
stale_fill_completes fresh memory delta fill u now deadline m w h k f =
    let c = target-Created fresh memory delta u now deadline m w h in
    fill_reaches_total (update_target fresh memory delta u now deadline m).0 fill c.works f (
      rw (c.total, c.filled)
        (omega (arith, +ℤ_parts memory fill, +ℤ_parts (memory +ℤ fill) epsilon)))

record Shrunk (m m' : Manager) (open_qty : ℤ) : Type 0 where
  works : m'.plan.state ≡ PlanState.working
  total : m'.plan.total_qty ≡ max_ℤ m.plan.filled_qty open_qty
  filled : m'.plan.filled_qty ≡ m.plan.filled_qty

target-Shrunk :
    (fresh : UpdateResult) (memory : ℤ) (u : Urgency) (now deadline open_qty : ℕ) (m : Manager)
    → m.plan.state ≡ PlanState.working
    → now < m.plan.deadline
    → m.plan.side ≡ Side.bid
    → abs_ℤ (m.plan.total_qty -ℤ pos open_qty) <ℤ m.cfg.replace_qty_threshold
    → 1 < open_qty
    → Shrunk m (update_target fresh memory (pos open_qty) u now deadline m).0 (pos open_qty)
unfolding update_target maybe_expire retarget adjust
target-Shrunk fresh memory u now deadline open_qty m w d s t h = ground (arith, abs-pos open_qty)

open_distance :
    (total filled : ℤ) (open_qty : ℕ)
    → total -ℤ filled ≡ pos open_qty
    → pos 0 <ℤ filled
    → abs_ℤ (total -ℤ pos open_qty) ≡ filled
unfolding abs_ℤ ◌-ℤ◌
open_distance total filled open_qty o p = ground arith

-- After a partial fill of a working bid plan, a target for exactly what is still open, within the
-- replacement threshold, shrinks the total to the larger of the filled and the open quantity: the
-- plan is then COMPLETED by a fill that brings the filled quantity to the open one only.
pub open_target_completes_early :
    (fresh : UpdateResult) (memory fill : ℤ) (u : Urgency) (now deadline open_qty : ℕ) (m : Manager)
    → m.plan.state ≡ PlanState.working
    → now < m.plan.deadline
    → m.plan.side ≡ Side.bid
    → m.plan.total_qty -ℤ m.plan.filled_qty ≡ pos open_qty
    → 1 < open_qty
    → pos 0 <ℤ m.plan.filled_qty
    → m.plan.filled_qty <ℤ m.cfg.replace_qty_threshold
    → pos 0 <ℤ fill
    → pos open_qty ≤ℤ m.plan.filled_qty +ℤ fill
    → (on_child_fill fill (update_target fresh memory (pos open_qty) u now deadline m).0).plan.state
      ≡ PlanState.completed
unfolding max_ℤ
open_target_completes_early fresh memory fill u now deadline open_qty m w d s o h p t f c =
    let e = open_distance m.plan.total_qty m.plan.filled_qty open_qty o p in
    let k = target-Shrunk fresh memory u now deadline open_qty m w d s (rw e t) h in
    fill_reaches_total (update_target fresh memory (pos open_qty) u now deadline m).0 fill k.works f
      (rw (k.total, k.filled)
        (ground
          (arith, +ℤ_parts m.plan.filled_qty fill, +ℤ_parts (m.plan.filled_qty +ℤ fill) epsilon)))

-- ===== src/Orders/ParentPlan/Outcomes.antt =====
-- What each call on a parent plan answers and changes.
use trading_infrastructure_c.Common.{
  ℕ, ◌+◌, ◌≤◌, ◌<◌, ◌≡◌, ◌⊎◌, inl, inr, Bool, true, false, Bool-cases, arith, u64,
}
use trading_infrastructure_c.Common.Int.{ℤ, abs_ℤ, ltb_ℤ, leb_ℤ}
use trading_infrastructure_c.Orders.ParentPlan.{
  Side, Urgency, Manager, UpdateResult, PlanState, PlanAction, epsilon, maybe_expire, update_target,
  clear_target, install, adjust, retarget, poll,
}

-- A result object as its users expect it: no action, no flag set.
abbrev pub IsBlank : UpdateResult → Type 0
IsBlank r =
    (r.action ≡ PlanAction.none)
    × (r.should_cancel_working_children ≡ false)
    × (r.deadline_passed ≡ false)

-- From a blank result object, `poll` expires the plan exactly when it is working and its deadline
-- has come: the plan is then EXPIRED, aggressive and without passive children, and the children are
-- canceled if more than the resolution remains. Otherwise nothing changes and no action is reported.
pub poll_outcome :
    (fresh : UpdateResult) (now : ℕ) (m : Manager)
    → IsBlank fresh
    → let (m', r) = poll fresh now m in
      ((m.plan.state ≡ PlanState.working)
        × (m.plan.deadline ≤ now)
        × (r.action ≡ PlanAction.expired)
        × (r.deadline_passed ≡ true)
        × (r.should_cancel_working_children ≡ ltb_ℤ epsilon m.plan.remaining_qty)
        × (m'.plan.state ≡ PlanState.expired)
        × (m'.plan.urgency ≡ Urgency.aggressive)
        × (m'.plan.allow_passive ≡ false)
        × (m'.plan.remaining_qty ≡ m.plan.remaining_qty))
      ⊎ ((m.plan.state ≡ PlanState.working → now < m.plan.deadline)
          × (r.action ≡ PlanAction.none)
          × (m' ≡ m))
unfolding poll
poll_outcome fresh now m h = ground arith

abbrev pub installs : PlanAction → Bool
installs PlanAction.created = true
installs PlanAction.replaced = true
installs _ = false

-- What `update_target` did to the plan's identity, told from its action.
pub record Identity (m m' : Manager) (action : PlanAction) : Type 0 where
  pub new_plan :
      installs action ≡ true
      → (m'.plan.plan_id ≡ m.next_plan_id)
        × (m'.next_plan_id ≡ u64 (m.next_plan_id + 1))
        × (m'.plan.revision ≡ 1)
        × (m'.plan.state ≡ PlanState.working)
  pub same_plan :
      installs action ≡ false
      → (m'.plan.plan_id ≡ m.plan.plan_id)
        × (m'.next_plan_id ≡ m.next_plan_id)
        × (m'.plan.side ≡ m.plan.side)
        × (m'.plan.filled_qty ≡ m.plan.filled_qty)

clear-Identity :
    (m : Manager) (r : UpdateResult)
    → installs r.action ≡ false
    → Identity m (clear_target m r).0 (clear_target m r).1.action
unfolding clear_target
clear-Identity m r h = ground arith

retarget-Identity :
    (memory : ℤ) (side : Side) (qty : ℤ) (u : Urgency) (now deadline : ℕ) (m : Manager)
    (r : UpdateResult)
    → Identity m
        (retarget memory side qty u now deadline m r).0
        (retarget memory side qty u now deadline m r).1.action
unfolding retarget install adjust
retarget-Identity memory side qty u now deadline m r = ground arith

-- Expiry changes neither the plan's identity nor the result's.
record Expiry (m m' : Manager) (r : UpdateResult) : Type 0 where
  id_kept : m'.plan.plan_id ≡ m.plan.plan_id
  next_kept : m'.next_plan_id ≡ m.next_plan_id
  side_kept : m'.plan.side ≡ m.plan.side
  filled_kept : m'.plan.filled_qty ≡ m.plan.filled_qty
  no_install : installs r.action ≡ false

expire-Expiry :
    (fresh : UpdateResult) (now : ℕ) (m : Manager)
    → installs fresh.action ≡ false
    → Expiry m (maybe_expire now m fresh).0 (maybe_expire now m fresh).1
unfolding maybe_expire
expire-Expiry fresh now m h = ground arith

Identity-after :
    (m m' m'' : Manager) (r : UpdateResult) (a : PlanAction)
    → Expiry m m' r
    → Identity m' m'' a
    → Identity m m'' a
Identity-after m m' m'' r a e i = ground (arith, e.id_kept, e.next_kept, e.side_kept, e.filled_kept)

-- From a blank result object, `update_target` installs a new plan exactly if it answers CREATED or
-- REPLACED: the plan takes the next id and the counter moves on (modulo 2^64), at revision 1 and
-- working. On any other answer the id, the side, the filled quantity and the counter are kept.
pub target-Identity :
    (fresh : UpdateResult) (memory delta : ℤ) (u : Urgency) (now deadline : ℕ) (m : Manager)
    → IsBlank fresh
    → Identity m
        (update_target fresh memory delta u now deadline m).0
        (update_target fresh memory delta u now deadline m).1.action
unfolding update_target
target-Identity fresh memory delta u now deadline m h =
    let (m', r) = maybe_expire now m fresh in
    let e = expire-Expiry fresh now m (ground arith) in
    elim (Bool-cases (leb_ℤ (abs_ℤ delta) epsilon)) [
      | inl reached ↦ rw reached (Identity-after m m' _ r _ e (clear-Identity m' r e.no_install))
      | inr apart ↦
          rw apart
            (Identity-after m m' _ r _ e (retarget-Identity memory _ (abs_ℤ delta) u now _ m' r))
    ]

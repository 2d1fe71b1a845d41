-- ===== src/Orders/ParentPlan.antt =====
-- core/execution/common/orders/parent_order_manager.hpp. Quantities are `double`s in the source and
-- integers here, in units of 1e-9 (`k_qty_epsilon`, the source's own resolution), so sums are exact
-- and NaN and infinities do not occur.
-- Time points and durations are numbers of one unit. Three members are never initialised by the
-- source: the `filled_qty` of a plan that `build_plan` makes, `action` and the flags of a fresh
-- `ParentPlanUpdateResult`, and the first `next_plan_id_`. What memory held there is an argument.
pub mod Outcomes
pub mod Fills
pub mod Hazards
use trading_infrastructure_c.Common.{
  ℕ, ◌+◌, Bool, true, false, not, ◌&&◌, ◌||◌, ltb, leb, ◌==◌, if◌then◌else◌, u32, u64,
}
use trading_infrastructure_c.Common.Int.{
  ℤ, pos, negsuc, ◌+ℤ◌, ◌-ℤ◌, ltb_ℤ, leb_ℤ, max_ℤ, min_ℤ, abs_ℤ,
}

pub data Side : Type 0 where
  bid ask : Side

pub data Urgency : Type 0 where
  passive balanced aggressive : Urgency

pub data PlanState : Type 0 where
  idle working completed canceled replaced expired rejected : PlanState

pub data PlanAction : Type 0 where
  none created updated replaced expired escalated completed canceled rejected : PlanAction

abbrev pub same_side : Side → Side → Bool
same_side Side.bid Side.bid = true
same_side Side.ask Side.ask = true
same_side _ _ = false

abbrev pub same_urgency : Urgency → Urgency → Bool
same_urgency Urgency.passive Urgency.passive = true
same_urgency Urgency.balanced Urgency.balanced = true
same_urgency Urgency.aggressive Urgency.aggressive = true
same_urgency _ _ = false

abbrev pub is_working : PlanState → Bool
is_working PlanState.working = true
is_working _ = false

abbrev pub is_none : PlanAction → Bool
is_none PlanAction.none = true
is_none _ = false

abbrev pub epsilon : ℤ
epsilon = pos 1

pub record Plan : Type 0 where
  pub plan_id : ℕ
  pub side : Side
  pub total_qty : ℤ
  pub filled_qty : ℤ
  pub remaining_qty : ℤ
  pub urgency : Urgency
  pub allow_passive : Bool
  pub allow_aggressive : Bool
  pub created_at : ℕ
  pub deadline : ℕ
  pub state : PlanState
  pub revision : ℕ

abbrev pub active : Plan → Bool
active p = is_working p.state

pub record UpdateResult : Type 0 where
  pub action : PlanAction
  pub plan : Plan
  pub should_cancel_working_children : Bool
  pub deadline_passed : Bool

pub record Config : Type 0 where
  pub replace_qty_threshold : ℤ
  pub default_deadline : ℕ
  pub min_deadline_extension : ℕ

pub record Manager : Type 0 where
  pub cfg : Config
  pub plan : Plan
  pub next_plan_id : ℕ

unfoldable pub build_plan : ℤ → Side → ℤ → Urgency → ℕ → ℕ → ℕ → Plan
build_plan memory side qty urgency now deadline plan_id = record {
  plan_id = plan_id;
  side = side;
  total_qty = qty;
  filled_qty = memory;
  remaining_qty = qty;
  urgency = urgency;
  allow_passive = not (same_urgency urgency Urgency.aggressive);
  allow_aggressive = true;
  created_at = now;
  deadline = deadline;
  state = PlanState.working;
  revision = 1;
}

expire : Plan → Plan
expire p = record p {
  state = PlanState.expired;
  urgency = Urgency.aggressive;
  allow_passive = false;
  revision = u32 (p.revision + 1);
}

unfoldable pub maybe_expire : ℕ → Manager → UpdateResult → Manager × UpdateResult
unfolding expire
maybe_expire now m r = if not (active m.plan) || ltb now m.plan.deadline then (m, r) else (
  record m { plan = expire m.plan },
  record {
    action = PlanAction.expired;
    plan = expire m.plan;
    should_cancel_working_children = ltb_ℤ epsilon m.plan.remaining_qty;
    deadline_passed = true;
  },
)

-- The branch of `update_target` for a target that is already reached.
clear_target : Manager → UpdateResult → Manager × UpdateResult
clear_target m r =
    let plan = record (m.plan) {
      state = PlanState.canceled;
      revision = u32 (m.plan.revision + 1);
    } in
    if active m.plan
    then (
      record m { plan = plan },
      record r { action = PlanAction.canceled; should_cancel_working_children = true; plan = plan },
    )
    else if is_none r.action
    then (m, record r { plan = m.plan })
    else (m, r)

-- A new plan takes the place of the current one.
install : ℤ → Side → ℤ → Urgency → ℕ → ℕ → Manager → Manager
unfolding build_plan
install memory side qty urgency now deadline m = record m {
  plan = build_plan memory side qty urgency now deadline m.next_plan_id;
  next_plan_id = u64 (m.next_plan_id + 1);
}

-- The last part of `update_target`: the working plan is adjusted in place.
adjust : ℤ → Urgency → ℕ → Manager → UpdateResult → Manager × UpdateResult
adjust requested urgency deadline m r =
    let p = m.plan in
    let capped = min_ℤ p.remaining_qty requested in
    let quantity_changed =
      leb_ℤ epsilon (abs_ℤ (p.total_qty -ℤ requested))
      || leb_ℤ epsilon (abs_ℤ (p.remaining_qty -ℤ capped)) in
    let changed =
      not (same_urgency p.urgency urgency)
      || ltb (p.deadline + m.cfg.min_deadline_extension) deadline
      || quantity_changed in
    let plan = record p {
      total_qty = max_ℤ p.filled_qty requested;
      remaining_qty = max_ℤ (pos 0) capped;
      urgency = urgency;
      deadline = if ltb p.deadline deadline then deadline else p.deadline;
      allow_passive = not (same_urgency urgency Urgency.aggressive);
      allow_aggressive = true;
      revision = u32 (p.revision + 1);
    } in
    (
      record m { plan = plan },
      record r { action = if changed then PlanAction.updated else PlanAction.none; plan = plan },
    )

-- `memory` is what the stack held at the `filled_qty` of a plan to be built.
retarget : ℤ → Side → ℤ → Urgency → ℕ → ℕ → Manager → UpdateResult → Manager × UpdateResult
unfolding install adjust
retarget memory side requested urgency now deadline m r =
    let m' = install memory side requested urgency now deadline m in
    if not (active m.plan)
    then (m', record r { action = PlanAction.created; plan = m'.plan })
    else if not (same_side m.plan.side side)
        || leb_ℤ m.cfg.replace_qty_threshold (abs_ℤ (m.plan.total_qty -ℤ requested))
    then (
      m',
      record r {
        action = PlanAction.replaced;
        should_cancel_working_children = true;
        plan = m'.plan;
      },
    )
    else adjust requested urgency deadline m r

-- `fresh` is the result object as the stack held it; 0 stands for the default deadline.
unfoldable pub update_target :
    UpdateResult → ℤ → ℤ → Urgency → ℕ → ℕ → Manager → Manager × UpdateResult
unfolding clear_target retarget
update_target fresh memory position_delta urgency now deadline m =
    let (m', r) = maybe_expire now m fresh in
    let requested = abs_ℤ position_delta in
    if leb_ℤ requested epsilon
    then clear_target m' r
    else retarget memory (if ltb_ℤ (pos 0) position_delta then Side.bid else Side.ask) requested
        urgency now (now + (if deadline == 0 then m'.cfg.default_deadline else deadline)) m' r

unfoldable pub on_child_fill : ℤ → Manager → Manager
on_child_fill fill_qty m =
    let p = m.plan in
    let filled = min_ℤ p.total_qty (p.filled_qty +ℤ fill_qty) in
    let remaining = max_ℤ (pos 0) (p.total_qty -ℤ filled) in
    if not (active p) || leb_ℤ fill_qty (pos 0)
    then m
    else if leb_ℤ remaining epsilon
    then record m {
      plan = record p { filled_qty = filled; remaining_qty = pos 0; state = PlanState.completed };
    }
    else record m { plan = record p { filled_qty = filled; remaining_qty = remaining } }

unfoldable pub on_child_cancel : ℤ → Manager → Manager
on_child_cancel canceled_qty m =
    let p = m.plan in
    let remaining = max_ℤ (pos 0) (p.remaining_qty -ℤ canceled_qty) in
    let total = max_ℤ p.filled_qty (p.filled_qty +ℤ remaining) in
    if not (active p) || leb_ℤ canceled_qty (pos 0)
    then m
    else if leb_ℤ remaining epsilon
    then record m {
      plan = record p {
        total_qty = total;
        remaining_qty = pos 0;
        state = if ltb_ℤ (pos 0) p.filled_qty then PlanState.completed else PlanState.canceled;
      };
    }
    else record m { plan = record p { total_qty = total; remaining_qty = remaining } }

unfoldable pub on_child_reject : Manager → Manager
on_child_reject m =
    let p = m.plan in
    if active p
    then record m {
      plan = record p {
        state = PlanState.rejected;
        remaining_qty = max_ℤ (pos 0) (p.total_qty -ℤ p.filled_qty);
      };
    }
    else m

unfoldable pub poll : UpdateResult → ℕ → Manager → Manager × UpdateResult
unfolding maybe_expire
poll fresh now m =
    let (m', r) = maybe_expire now m fresh in
    (m', if is_none r.action then record r { plan = m'.plan } else r)

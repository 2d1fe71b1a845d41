-- ===== src/Orders/ParentPlan/Fills.antt =====
-- Child fills on a working parent plan: how they add up and when they complete it.
use trading_infrastructure_c.Common.{
  ◌≡◌, refl, inl, inr, List, [], ◌∷◌, All, Bool-cases, ltb→lt, ◌∙◌, arith,
}
use trading_infrastructure_c.Common.Int.{
  ℤ, pos, ◌≤ℤ◌, ◌<ℤ◌, ◌+ℤ◌, ◌-ℤ◌, max_ℤ, min_ℤ, ltb_ℤ, +ℤ_parts, int_laws,
}
use trading_infrastructure_c.Orders.ParentPlan.{Manager, PlanState, epsilon, on_child_fill}

-- A fill that brings the filled quantity to the total, or within the resolution of it, completes a working plan.
pub fill_reaches_total :
    (m : Manager) (fill : ℤ)
    → m.plan.state ≡ PlanState.working
    → pos 0 <ℤ fill
    → m.plan.total_qty ≤ℤ m.plan.filled_qty +ℤ fill +ℤ epsilon
    → (on_child_fill fill m).plan.state ≡ PlanState.completed
unfolding on_child_fill max_ℤ min_ℤ ◌+ℤ◌ ◌-ℤ◌
fill_reaches_total m fill w p h = ground arith

unfoldable pub sum : List ℤ → ℤ
sum [] = pos 0
sum (q ∷ qs) = q +ℤ sum qs

sum_nonneg : (qs : List ℤ) → All (λ q. pos 0 <ℤ q) qs → pos 0 ≤ℤ sum qs
unfolding sum
sum_nonneg [] p = omega arith
sum_nonneg (q ∷ qs) p = omega (arith, +ℤ_parts q (sum qs), sum_nonneg qs p.1)

pub fill_all : List ℤ → Manager → Manager
fill_all [] m = m
fill_all (q ∷ qs) m = fill_all qs (on_child_fill q m)

record Filled (m m' : Manager) (q : ℤ) : Type 0 where
  works : m'.plan.state ≡ PlanState.working
  filled : m'.plan.filled_qty ≡ m.plan.filled_qty +ℤ q
  total : m'.plan.total_qty ≡ m.plan.total_qty
  left : m'.plan.remaining_qty ≡ m.plan.total_qty -ℤ m'.plan.filled_qty

fill_partly :
    (m : Manager) (q : ℤ)
    → m.plan.state ≡ PlanState.working
    → pos 0 <ℤ q
    → m.plan.filled_qty +ℤ q +ℤ epsilon <ℤ m.plan.total_qty
    → Filled m (on_child_fill q m) q
unfolding on_child_fill max_ℤ min_ℤ ◌+ℤ◌ ◌-ℤ◌
fill_partly m q w p h = ground arith

completed_stays :
    (qs : List ℤ) (m : Manager)
    → m.plan.state ≡ PlanState.completed
    → (fill_all qs m).plan.state ≡ PlanState.completed
unfolding fill_all on_child_fill
completed_stays [] m h = h
completed_stays (q ∷ qs) m h = completed_stays qs (on_child_fill q m) (ground arith)

-- Child fills add up. While they leave more than the resolution open, the plan works on, its total
-- is kept and its filled quantity is the former one plus the sum of the fills.
pub fills_add_up :
    (qs : List ℤ) (m : Manager)
    → m.plan.state ≡ PlanState.working
    → All (λ q. pos 0 <ℤ q) qs
    → m.plan.filled_qty +ℤ sum qs +ℤ epsilon <ℤ m.plan.total_qty
    → ((fill_all qs m).plan.state ≡ PlanState.working)
      × ((fill_all qs m).plan.filled_qty ≡ m.plan.filled_qty +ℤ sum qs)
      × ((fill_all qs m).plan.total_qty ≡ m.plan.total_qty)
unfolding fill_all sum
fills_add_up [] m w p h = (w, omega int_laws, refl)
fills_add_up (q ∷ qs) m w p h =
    let f = fill_partly m q w p.0 (omega (int_laws, sum_nonneg qs p.1)) in
    let (works, filled, total) =
      fills_add_up qs (on_child_fill q m) f.works p.1 (rw (f.filled, f.total) (omega int_laws)) in
    (works, filled ∙ rw f.filled (omega int_laws), total ∙ f.total)

-- Once the fills of a working plan bring it to its total, or within the resolution of it, the plan
-- is COMPLETED.
pub fills_complete :
    (q : ℤ) (qs : List ℤ) (m : Manager)
    → m.plan.state ≡ PlanState.working
    → All (λ x. pos 0 <ℤ x) (q ∷ qs)
    → m.plan.total_qty ≤ℤ m.plan.filled_qty +ℤ sum (q ∷ qs) +ℤ epsilon
    → (fill_all (q ∷ qs) m).plan.state ≡ PlanState.completed
unfolding fill_all sum
fills_complete q [] m w p h = fill_reaches_total m q w p.0 (omega int_laws)
fills_complete q (r ∷ rs) m w p h =
    elim (Bool-cases (ltb_ℤ (m.plan.filled_qty +ℤ q +ℤ epsilon) m.plan.total_qty)) [
      | inl some_left ↦
          let f = fill_partly m q w p.0 (ltb→lt _ _ some_left) in
          fills_complete r rs (on_child_fill q m) f.works p.1
            (rw (f.filled, f.total) (omega int_laws))
      | inr none_left ↦
          completed_stays (r ∷ rs) (on_child_fill q m) (fill_reaches_total m q w p.0 (ground arith))
    ]

-- ===== src/Portfolio/OrderManager/Drain.antt =====
-- `drain_fills` works through the whole fill queue, and what its updates and `submit` do to orders.
use mathlib.Core.Path.{subst}
use trading_infrastructure_c.Common.{
  ℕ, zero, suc, ◌≤◌, ◌<◌, ◌≡◌, refl, sym, ap, ◌∙◌, ◌⊎◌, inl, inr, true, false, none, some, List, [],
  ◌∷◌, if◌then◌else◌, length, get_or, set, set-set, arith, Bool-cases, Option-cases,
}
use trading_infrastructure_c.Common.Slots.{find_index-passes}
use trading_infrastructure_c.Common.Double.{Double}
use trading_infrastructure_c.Connectors.LiveConnector.{ConnectorResult, is_ok}
use trading_infrastructure_c.Orders.SpscQueue.{SpscQueue}
use trading_infrastructure_c.Orders.SpscQueue.Refines.{Represents, pop_empty, pop_next}
use trading_infrastructure_c.Portfolio.PositionLedger.{Order}
use trading_infrastructure_c.Portfolio.OrderManager.{
  ManagedOrder, FillUpdate, OrderManager, find_free_slot, active_order_count, placed, blank_slot,
  submit, submit_at, apply_fill, drain_fills, is_free,
}

module _ (D : Double) where
  -- The updates of a list, one after the other.
  pub apply_each : ℕ → List (FillUpdate D) → OrderManager D → OrderManager D
  apply_each now [] m = m
  apply_each now (u ∷ us) m = apply_each now us (apply_fill D now u m)

  -- If the ring represents a list of updates, as many rounds as it has updates, or more, are enough
  -- for drain_fills to empty the ring and to apply the updates of the list in order, each once.
  pub drain_fills-apply_each :
      (rounds now : ℕ) (q : SpscQueue (FillUpdate D)) (live : List (FillUpdate D))
      (m : OrderManager D)
      → Represents q live
      → length live ≤ rounds
      → ((drain_fills D rounds now q m).1 ≡ apply_each now live m)
        × Represents (drain_fills D rounds now q m).0 []
  unfolding drain_fills apply_each
  drain_fills-apply_each zero now q [] m r h = (refl, r)
  drain_fills-apply_each zero now q (u ∷ us) m r h = absurd (omega arith)
  drain_fills-apply_each (suc rounds) now q [] m r h = rw (pop_empty q r, drain_fills) (refl, r)
  drain_fills-apply_each (suc rounds) now q (u ∷ us) m r h =
      let (q', popped, r') = pop_next q u us r in
      rw (popped, drain_fills)
        (drain_fills-apply_each rounds now q' us (apply_fill D now u m) r' (omega arith))

  active_order_count-set :
      (ss : List (ManagedOrder D)) (i : ℕ) (s : ManagedOrder D)
      → i < length ss
      → (get_or ss i (blank_slot D)).active ≡ false
      → active_order_count D (set ss i s)
        ≡ (if s.active then suc (active_order_count D ss) else active_order_count D ss)
  unfolding active_order_count
  active_order_count-set [] i s l h = absurd (omega arith)
  active_order_count-set (x ∷ ss) zero s l h = rw h refl
  active_order_count-set (x ∷ ss) (suc i) s l h =
      let ih = active_order_count-set ss i s (omega arith) h in rw ih (ground arith)

  abbrev pub numbered : Order D → OrderManager D → Order D
  numbered o m = record o { client_order_id = m.next_id }

  abbrev pub Outcome :
      (Order D → ConnectorResult) → Order D → OrderManager D → ℕ × OrderManager D → Type 0
  Outcome connector o m (id, m') =
      ((find_free_slot D m.slots ≡ none) × (id ≡ 0) × (m' ≡ m))
      ⊎ ((is_ok (connector (numbered o m)) ≡ false)
          × (id ≡ 0)
          × (active_order_count D m'.slots ≡ active_order_count D m.slots)
          × (m'.ledger ≡ m.ledger)
          × (m'.position ≡ m.position))
      ⊎ ((is_ok (connector (numbered o m)) ≡ true)
          × (id ≡ m.next_id)
          × (active_order_count D m'.slots ≡ suc (active_order_count D m.slots))
          × (m'.position ≡ m.position))

  taken-Outcome :
      (connector : Order D → ConnectorResult) (o : Order D) (m : OrderManager D) (i : ℕ)
      → find_free_slot D m.slots ≡ some i
      → Outcome connector o m (submit_at D connector o m (some i))
  unfolding submit_at find_free_slot
  taken-Outcome connector o m i f =
      let (free, within) = find_index-passes (is_free D) m.slots i (blank_slot D) f in
      let was : (get_or m.slots i (blank_slot D)).active ≡ false = ground arith in
      elim (Bool-cases (is_ok (connector (numbered o m)))) [
        | inl accepted ↦ rw accepted (
            inr (
              inr (
                refl,
                refl,
                active_order_count-set m.slots i (placed D (numbered o m)) within was,
                refl,
              )))
        | inr refused ↦ rw refused (
            inr (
              inl (
                refl,
                refl,
                ap (active_order_count D) (
                      set-set m.slots i (placed D (numbered o m))
                        (record (placed D (numbered o m)) { active = false }))
                    ∙ active_order_count-set m.slots i
                        (record (placed D (numbered o m)) { active = false }) within was,
                refl,
                refl,
              )))
      ]

  -- `submit` has three outcomes. With no free slot it answers 0 and changes nothing. If the connector
  -- refuses the order it answers 0, and the number of active orders, the ledger and the position are
  -- as before. If the connector accepts, it answers the next id, and one more order is active.
  pub submit-Outcome :
      (connector : Order D → ConnectorResult) (o : Order D) (m : OrderManager D)
      → Outcome connector o m (submit D connector o m)
  unfolding submit
  submit-Outcome connector o m = elim (Option-cases (find_free_slot D m.slots)) [
    | inl full ↦ inl (full, rw full refl, rw full refl)
    | inr (i, f) ↦
        subst (Outcome connector o m) (ap (submit_at D connector o m) (sym f))
          (taken-Outcome connector o m i f)
  ]

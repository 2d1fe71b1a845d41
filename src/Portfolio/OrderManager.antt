-- ===== src/Portfolio/OrderManager.antt =====
-- `OrderManager` of core/execution/common/orders/order_manager.hpp, over an abstract `double`. The
-- connector behind `submit_order` is a parameter, the array of 64 slots a list, the calls of `on_fill`
-- a log with the latest first. Multiplying by 1.0 or -1.0 is written as `signed_qty`. The source leaves
-- `position_` uninitialised. The fill queue is `SpscQueue`, an argument of the loop that empties it.
pub mod Drain
use trading_infrastructure_c.Common.{
  ℕ, zero, suc, ◌+◌, Bool, true, false, not, ◌&&◌, Option, none, some, List, [], ◌∷◌, ◌==◌,
  if◌then◌else◌, get_or, set, u64,
}
use trading_infrastructure_c.Common.Slots.{find_index}
use trading_infrastructure_c.Common.Double.{Double}
use trading_infrastructure_c.Connectors.LiveConnector.{ConnectorResult, is_ok}
use trading_infrastructure_c.Connectors.OrderMap.{Exchange}
use trading_infrastructure_c.Orders.ParentPlan.{Side}
use trading_infrastructure_c.Orders.SpscQueue.{SpscQueue, pop}
use trading_infrastructure_c.Portfolio.PositionLedger.{
  Ledger, Order, max_zero, signed_qty, on_order_submitted, on_order_closed, on_fill,
}

pub data OrderState : Type 0 where
  pending opened partially_filled filled canceled rejected : OrderState

abbrev pub is_terminal : OrderState → Bool
is_terminal OrderState.filled = true
is_terminal OrderState.canceled = true
is_terminal OrderState.rejected = true
is_terminal _ = false

module _ (D : Double) where
  open D use {Carrier, lt, add, sub}

  pub record ManagedOrder : Type 0 where
    pub order : Order D
    pub state : OrderState
    pub filled_qty : Carrier
    pub avg_fill_price : Carrier
    pub active : Bool

  pub record FillUpdate : Type 0 where
    pub client_order_id : ℕ
    pub fill_price : Carrier
    pub fill_qty : Carrier
    pub cumulative_filled_qty : Carrier
    pub avg_fill_price : Carrier
    pub new_state : OrderState

  pub record OrderManager : Type 0 where
    pub next_id : ℕ
    pub slots : List ManagedOrder
    pub position : Carrier
    pub ledger : Ledger D
    pub fills_reported : List (ManagedOrder × FillUpdate)

  abbrev pub is_free : ManagedOrder → Bool
  is_free s = not s.active

  abbrev pub has_id : ℕ → ManagedOrder → Bool
  has_id id s = s.active && s.order.client_order_id == id

  unfoldable pub find_free_slot : List ManagedOrder → Option ℕ
  find_free_slot slots = find_index is_free slots

  unfoldable pub find_order : ℕ → List ManagedOrder → Option ℕ
  find_order id slots = find_index (has_id id) slots

  unfoldable pub active_order_count : List ManagedOrder → ℕ
  active_order_count [] = 0
  active_order_count (s ∷ ss) =
      let rest = active_order_count ss in if s.active then suc rest else rest

  abbrev pub placed : Order D → ManagedOrder
  placed o = record {
    order = o;
    state = OrderState.pending;
    filled_qty = D.zero;
    avg_fill_price = D.zero;
    active = true;
  }

  -- A slot that was never used.
  abbrev pub blank_slot : ManagedOrder
  blank_slot =
      record (placed (record {
        client_order_id = 0;
        symbol = [];
        exchange = Exchange.unknown;
        side = Side.bid;
        quantity = D.zero;
      })) { active = false }

  unfoldable pub submit_at :
      (Order D → ConnectorResult) → Order D → OrderManager → Option ℕ → ℕ × OrderManager
  submit_at connector o m none = (0, m)
  submit_at connector o m (some i) =
      let sent = record o { client_order_id = m.next_id } in
      let m' = record m { next_id = u64 (m.next_id + 1); slots = set m.slots i (placed sent) } in
      if is_ok (connector sent)
      then (m.next_id, record m' { ledger = on_order_submitted D sent m.ledger })
      else (0, record m' { slots = set m'.slots i (record (placed sent) { active = false }) })

  unfoldable pub submit : (Order D → ConnectorResult) → Order D → OrderManager → ℕ × OrderManager
  unfolding submit_at find_free_slot
  submit connector o m = submit_at connector o m (find_free_slot m.slots)

  unfoldable pub count_fill : ℕ → Order D → FillUpdate → OrderManager → OrderManager
  count_fill now o u m =
      if lt D.zero u.fill_qty
      then record m {
        position = add m.position (signed_qty D o.side u.fill_qty);
        ledger = on_fill D now o u.fill_qty u.fill_price m.ledger;
      }
      else m

  unfoldable pub retire : ℕ → ManagedOrder → FillUpdate → OrderManager → OrderManager
  retire i mo u m =
      if is_terminal u.new_state
      then record m {
        ledger =
            on_order_closed D mo.order (max_zero D (sub mo.order.quantity mo.filled_qty)) m.ledger;
        fills_reported = (mo, u) ∷ m.fills_reported;
        slots = set m.slots i (record mo { active = false });
      }
      else m

  unfoldable pub apply_at : ℕ → FillUpdate → OrderManager → Option ℕ → OrderManager
  unfolding count_fill retire
  apply_at now u m none = m
  apply_at now u m (some i) =
      let mo = record (get_or m.slots i blank_slot) {
        filled_qty = u.cumulative_filled_qty;
        avg_fill_price = u.avg_fill_price;
        state = u.new_state;
      } in
      retire i mo u (count_fill now mo.order u (record m { slots = set m.slots i mo }))

  unfoldable pub apply_fill : ℕ → FillUpdate → OrderManager → OrderManager
  unfolding apply_at find_order
  apply_fill now u m = apply_at now u m (find_order u.client_order_id m.slots)

  -- drain_fills, with a bound on the number of rounds.
  pub drain_fills :
      ℕ → ℕ → SpscQueue FillUpdate → OrderManager → SpscQueue FillUpdate × OrderManager
  unfolding apply_fill
  drain_fills zero now q m = (q, m)
  drain_fills (suc rounds) now q m = elim (pop q) [
    | none ↦ (q, m)
    | some (u, q') ↦ drain_fills rounds now q' (apply_fill now u m)
  ]

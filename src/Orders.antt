-- ===== src/Orders.antt =====
-- Order management: core/execution/common/orders.
pub mod SpscQueue
pub mod ParentPlan
mod Examples

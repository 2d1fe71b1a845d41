-- ===== src/Routing.antt =====
-- Where an order goes: core/execution/router and the child orders of a parent's plan.
pub mod Router
pub mod ChildScheduler
pub mod VenueQuality
mod Examples

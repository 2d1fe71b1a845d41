-- ===== src/Risk.antt =====
-- The risk gate: core/risk.
pub mod KillSwitch
pub mod CircuitBreaker
pub mod GlobalRisk
mod Examples

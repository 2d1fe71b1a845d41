-- ===== src/Portfolio.antt =====
-- What the engine holds: core/execution/common/portfolio.
pub mod PositionLedger
pub mod OrderManager
pub mod IntentEngine
pub mod SessionAccounting
mod Examples

-- ===== src/Connectors.antt =====
-- Order entry at a venue: core/execution/common/connectors.
pub mod Text
pub mod Records
pub mod Journal
pub mod OrderMap
pub mod Reconciliation
pub mod LiveConnector
mod Examples

-- ===== src/Ipc.antt =====
-- Shared memory between the core and the research process: core/ipc.
pub mod LobPublisher
pub mod SignalReader
mod Examples

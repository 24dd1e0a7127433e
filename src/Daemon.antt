-- ===== src/Daemon.antt =====
-- The coordination daemon (pkg/daemon).
pub mod Scheduler
pub mod Protocol
pub mod Handling
pub mod WorkerPool

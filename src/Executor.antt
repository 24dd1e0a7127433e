-- ===== src/Executor.antt =====
-- Executor.Run (pkg/executor/executor.go) with RunStats (pkg/ui/ui.go). The command's runs, the
-- clock and the strategy are arguments: `run n` is what attempt n gives, `duration n` how long it
-- takes. What the Reporter prints is not modelled; the waits before the next attempts are.
pub mod Coordination
pub mod Attempts
pub mod Loop
pub mod Run
pub mod Verdict
pub mod Accounting
pub mod Capture

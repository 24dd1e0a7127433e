-- ===== src/Backoff.antt =====
-- The backoff strategies (pkg/backoff).
pub mod Cap
pub mod Floats
pub mod Linear
pub mod Fibonacci
pub mod Exponential
pub mod Diophantine
pub mod Adaptive
pub mod Polynomial
pub mod Tracker
pub mod Best
pub mod HttpAware

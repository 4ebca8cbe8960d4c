-- ===== src/Limits.antt =====
-- src/fa/inner_loop/runtime_limits.py: the limits of a run, read from its configuration.
pub mod Keys
pub mod Load
pub mod Positive
pub mod Strict
mod Tests

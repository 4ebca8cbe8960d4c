-- ===== src/Recovery.antt =====
-- src/fa/inner_loop/recovery: the window of failed attempts, and what to do after a failure.
pub mod Attempts
pub mod Recent
pub mod Classify
pub mod Denied
mod Tests
mod DeniedTests

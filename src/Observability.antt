-- ===== src/Observability.antt =====
-- src/fa/observability: the guard that keeps a session within its budget.
pub mod Cost
pub mod Totals
pub mod Overdrawn
mod Tests

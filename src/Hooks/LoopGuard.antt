-- ===== src/Hooks/LoopGuard.antt =====
-- hooks/loop_guard.py: the guard against runs that make no progress.
pub mod Window
pub mod Scan
pub mod Calls
pub mod Counts
pub mod Alternation
pub mod Cycles
pub mod Stuck
pub mod Runs

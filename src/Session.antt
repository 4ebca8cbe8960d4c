-- ===== src/Session.antt =====
-- src/fa/inner_loop/loop.py, with registry.py and state.py: one round of tool calls.
pub mod Types
pub mod Tools
pub mod Batches
pub mod Grouping
pub mod Clash
pub mod Execute
pub mod Parallel
pub mod Run
pub mod Counts
pub mod Bounds
pub mod Safe
pub mod SafeBatch
pub mod SafeRun
mod Tests

-- ===== src/Hooks.antt =====
-- src/fa/inner_loop/hooks: the middleware chain and guards that run in it.
pub mod Types
pub mod Registry
pub mod Cases
pub mod Recheck
pub mod Passes
pub mod Keeps
pub mod Sandbox
pub mod Confined
pub mod Registration
pub mod LoopGuard
pub mod Blockers
pub mod Gate
pub mod Suppression
mod Tests
mod ConfinedTests

-- ===== src/Providers.antt =====
-- src/fa/providers: the dispatcher that tries the providers of a role in order.
pub mod Messages
pub mod Chain
pub mod Outcomes
pub mod Ready
pub mod Wire
pub mod Cooldown
pub mod Order
pub mod Validate
pub mod Blame
mod Tests
mod ValidateTests

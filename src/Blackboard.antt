-- ===== src/Blackboard.antt =====
-- src/fa/blackboard/blackboard.py: conflicts between the writers of a shared board.
pub mod Entries
pub mod Overlap
pub mod Detect
mod Tests

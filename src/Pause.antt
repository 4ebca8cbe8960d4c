-- ===== src/Pause.antt =====
-- src/fa/orchestration/pause.py: the pause and resume sentinels, and the wait for a resume.
pub mod Sentinels
pub mod Wait
pub mod Ends
mod Tests

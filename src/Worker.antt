-- ===== src/Worker.antt =====
-- internal/worker: the registry of actions, and the life of one task.
pub mod Registry
pub mod Process
pub mod Phases
pub mod Sequential
pub mod Timeouts
pub mod Failures
pub mod Outcomes

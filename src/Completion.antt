-- ===== src/Completion.antt =====
-- A workflow whose actions succeed, from its submission to its end: the service, the main worker and
-- the coordinator together.
mod Counts
mod Rows
pub mod Track
mod Work
mod Written
mod Worked
mod Idle
mod WorkerTurn
mod Receive
mod Freed
mod Ended
mod Unblocked
mod After
mod CoordinatorTurn
pub mod Quiet
pub mod Schedule
pub mod Requests
mod Submitted
pub mod Start

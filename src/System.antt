-- ===== src/System.antt =====
-- cmd/server/main.go: the coordinator and the two worker pools over one database and one Redis.
mod Steps
mod Handlers
mod Advance
pub mod Invariant
mod Learning
mod Holding
pub mod Threads
pub mod Progress
pub mod Claims
pub mod Exclusion
pub mod Safety
pub mod Tokens
mod TokenSteps
mod Releases
mod Covered
mod Handouts
mod Submissions
pub mod Histories
pub mod Once
pub mod Attempts
pub mod Exhaustion
pub mod Lookup
pub use Steps.*

-- ===== src/Repository.antt =====
-- internal/core/postgres/repository: the two repositories over the tables.
pub mod Rows
pub mod Tasks
pub mod Dag
pub mod Workflows
pub mod Evolution
pub mod RowFacts
pub mod Locks
pub mod Keys
pub mod Retries
pub mod Waiting
pub mod Atomic

-- ===== src/Domain.antt =====
-- internal/domain: the entities, their factories and the events. A uuid is a number (its 128 bits),
-- and the clock fields (CreatedAt, UpdatedAt) are left out.
mod Tasks
mod Workflows
mod Events
unfoldable pub use Tasks.*
unfoldable pub use Workflows.*
unfoldable pub use Events.*

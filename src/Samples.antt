-- ===== src/Samples.antt =====
-- Concrete values: services that behave as documented, and small workflows.
mod Services
mod Workflows
mod Witnesses
mod Instances
mod Interleavings
mod Lookups
mod Retries
mod Completions
mod Orders
unfoldable pub use Services.*
unfoldable pub use Workflows.*

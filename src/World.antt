-- ===== src/World.antt =====
-- The state that the parts of the program share, and the monad in which they act on it.
mod State
mod Metrics
mod Action
mod Rules
mod Tables
mod Queues
pub use Metrics.*
pub use State.*
unfoldable pub use Action.*
pub use Rules.*
pub use Tables.*
pub use Queues.*

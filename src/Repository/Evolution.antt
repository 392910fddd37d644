-- ===== src/Repository/Evolution.antt =====
-- How the tables change over time: rows are added behind the others, and a row only moves on.
mod Rules
mod Rows
mod Closure
mod Actions
mod Interface
pub use Rules.*
pub use Rows.*
pub use Closure.*
pub use Actions.*
pub use Interface.*

-- ===== src/Kahn.antt =====
-- Kahn's algorithm as the coordinator runs it: the counters against the sets of dependencies.
mod Ends
pub mod Counting
pub mod Refinement
pub mod Replay
pub use Ends.*

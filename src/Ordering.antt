-- ===== src/Ordering.antt =====
-- Tables with the same rows in another order. SQL gives them none; the model has them in a list.
pub mod Rows
pub mod Rules
mod Statements
pub mod Workers
pub mod Queries

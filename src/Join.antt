-- ===== src/Join.antt =====
-- runtime/skinner_join_executor.cc: the join orders that a query tries while it runs, and how far
-- each has come. A vector that is indexed by tables is a list; a table is its index.
pub mod Tuple
pub mod Rank
pub mod Fill
pub mod Completed
pub mod Tree
pub mod State
pub mod Playout
mod Tests

-- ===== src/Store.antt =====
-- The document database that the Convex functions run on (`ctx.db` of convex/server), which is not
-- part of the repository: an interface of operations with the documented behaviour as laws.
pub mod Rows
pub mod Interface
pub mod Queries
pub mod Sums
pub mod Collecting
pub mod Totals
pub mod Sorting
pub mod InMemory

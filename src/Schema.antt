-- ===== src/Schema.antt =====
-- The data model (frontend/convex/schema.ts): the statuses, the documents, and the state that a
-- mutation reads and writes.
pub mod Status
pub mod Docs
pub mod State
pub mod Keys
pub mod Text

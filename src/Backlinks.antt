-- ===== src/Backlinks.antt =====
-- services/backlinks-processor: from Redis backlink sets to MongoDB backlink documents.
pub mod Config
pub mod Errors
pub mod Datastore
pub mod Keys
pub mod Redis
pub mod Mongo
pub mod Batch
pub mod State
pub mod Admit
pub mod Cycle
pub mod Run
pub mod Safe
pub mod Reconcile
pub mod Tests

-- ===== src/Fenced.antt =====
-- The fenced work queue that services/indexer and services/image-indexer keep in Redis.
pub mod Store
pub mod Memory
pub mod Script
pub mod Queue
pub mod Spec
pub mod Spares
pub mod System
pub mod History
pub mod Session
pub mod Client
pub mod Keys
pub mod Tests

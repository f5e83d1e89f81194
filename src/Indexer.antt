-- ===== src/Indexer.antt =====
-- services/indexer: its Redis scripts and client (data/redis_client.py) and its service loop (main.py).
pub mod Scripts
pub mod Client
pub mod Main
pub mod Tests

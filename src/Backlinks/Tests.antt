-- ===== src/Backlinks/Tests.antt =====
-- Runs of the backlinks processor at concrete inputs, over datastores in memory.
mod Memory
mod Runs
mod Edges

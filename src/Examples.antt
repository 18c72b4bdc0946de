-- ===== src/Examples.antt =====
-- Concrete inputs for the theorems: the metadata store with one topic on three brokers, and a Raft
-- node among three.
mod Placements
mod Stores
mod Replicas
mod Nodes
mod Logs
mod Joins
mod Calls
mod Scrapes
mod Environments
mod Starts

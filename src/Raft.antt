-- ===== src/Raft.antt =====
-- The Raft core of the controllers: src/internal/raft.
pub mod Membership
pub mod Log
pub mod Messages
pub mod Node
pub mod Transport
pub mod Tcp
pub mod Cluster

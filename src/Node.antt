-- ===== src/Node.antt =====
-- node/peer.go and node/db.go: the peers a node is connected to and the addresses it knows.
pub mod Types
pub mod Addresses
pub mod Peers
pub mod Known
pub mod Limits
pub mod Bans
pub mod Pending

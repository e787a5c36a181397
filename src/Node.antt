-- ===== src/Node.antt =====
-- The crate `da-node`: the blobs of a node and their synchronisation with its peers.
pub mod Proto
pub mod Database
pub mod Manager
pub mod World
pub mod Types
pub mod Client
pub mod Permits
pub mod Sync
pub mod Server
pub mod Invariant
pub mod UserApi
pub mod Tombstones
pub mod Replication
pub mod System
pub mod Startup
pub mod Configuration
pub mod Main
mod Tests

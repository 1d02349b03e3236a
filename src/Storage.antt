-- ===== src/Storage.antt =====
-- internal/storage/storage.go: the blob stores, on the local disk and on blob nodes.
pub mod Paths
pub mod Local
pub mod Nodes
pub mod Distributed
pub mod RoundTrip
pub mod Effects
pub mod Replication
pub mod Rollback
mod Tests

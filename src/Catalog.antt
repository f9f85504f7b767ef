-- ===== src/Catalog.antt =====
-- pkg/provider/catalog: what a node knows of the cluster.
pub mod Types
pub mod Local
pub mod Cluster
pub mod Gossip
pub mod Rank
pub mod Totals
pub mod Invariant
pub mod Operations
pub mod Deletion
pub mod Startup
pub mod Stream
pub mod Polling
pub mod Discovery
pub mod Reach

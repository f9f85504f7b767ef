-- ===== src/Tests.antt =====
-- Concrete runs: a node that starts with one function, hears of a peer, and is told what it runs.
pub mod Runs
pub mod Catalogs
pub mod Requests
pub mod Graphs
pub mod Labels
pub mod Containers
pub mod Deletions
pub mod Deployments
pub mod Specifications

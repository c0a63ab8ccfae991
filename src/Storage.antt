-- ===== src/Storage.antt =====
-- internal/storage: the scenarios, how a request is matched against them, and the two registries.
pub mod HeaderRules
pub mod Endpoints
pub mod Scenarios
pub mod Matching
pub mod Ranking
pub mod Registry
pub mod Loader
pub mod Topology
pub mod ShardKeys
pub mod Sharded

-- ===== src/Tests.antt =====
-- Tests of the definitions, and the theorems applied at concrete inputs.
mod StreamPlan
mod Chunked
mod Weight
mod Header
mod Protocol
mod Terminal
mod Retry
mod Router
mod Timeout
mod Body
mod Cache
mod Storage
mod Shards
mod Topology
mod Paths

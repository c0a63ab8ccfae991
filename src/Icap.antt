-- ===== src/Icap.antt =====
-- pkg/icap: the ICAP protocol library.
pub mod StreamPlan
pub mod Chunked
pub mod Header
pub mod Body

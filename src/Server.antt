-- ===== src/Server.antt =====
-- internal/server: the ICAP server.
pub mod Protocol
pub mod Terminal

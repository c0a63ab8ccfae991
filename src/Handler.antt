-- ===== src/Handler.antt =====
-- internal/handler: request handlers and what wraps them.
pub mod Retry
pub mod Timeout

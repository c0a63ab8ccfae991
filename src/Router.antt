-- ===== src/Router.antt =====
-- internal/router: routing of requests to handlers.
pub mod Cache
pub mod Paths
pub mod Table

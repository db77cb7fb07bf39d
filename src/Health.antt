-- ===== src/Health.antt =====
-- dns/internal/health: the internal HTTP server and the handler of GET /health.
pub mod Server
pub mod Handler

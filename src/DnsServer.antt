-- ===== src/DnsServer.antt =====
-- dns/internal/dnsserver: the request handler and the life of the two listeners.
pub mod Handler
pub mod Lifecycle

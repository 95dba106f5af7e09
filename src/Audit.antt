-- ===== src/Audit.antt =====
-- internal/audit: the client that sends audit entries, and the collector that takes them.
pub mod Client
pub mod Snippet
pub mod Collector

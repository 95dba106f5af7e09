-- ===== src/Buffer.antt =====
-- internal/buffer: the ring buffer between a terminal and its readers, and its configured size.
pub mod Ring
pub mod Config

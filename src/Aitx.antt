-- ===== src/Aitx.antt =====
-- internal/aitx: the server that keeps terminals for clients which come and go.
pub mod Keys
pub mod Process
pub mod Reader
pub mod Server

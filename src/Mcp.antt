-- ===== src/Mcp.antt =====
-- internal/mcp: the request loop of the stdio server, the HTTP transport, the credentials.
pub mod Inflight
pub mod Serve
pub mod Credentials
pub mod WaitFor
pub mod Http
pub mod Tools
pub mod Rotator
pub mod Prompt

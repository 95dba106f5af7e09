-- ===== src/Session.antt =====
-- internal/session: the manager of all sessions, and what it keeps for each of them.
pub mod Manager
pub mod Screen
pub mod Classifier
pub mod Ssh
pub mod Remote
pub mod Serial

-- ===== src/Auth.antt =====
-- auth/: identities, MCP sessions, and the providers that resolve a session to an identity
pub mod Context
pub mod Session
pub mod Store
pub mod Provider

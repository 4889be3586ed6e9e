-- ===== src/Server.antt =====
-- crates/skb-server: the HTTP server around the core.
pub mod Error
pub mod Auth
pub mod Session

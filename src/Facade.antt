-- ===== src/Facade.antt =====
-- crates/skb-core/src/lib.rs: `KnowledgeBase`, which opens the parts and passes calls on.
pub mod Fingerprint
pub mod Open
pub mod Snapshot
pub mod Search
pub mod Query

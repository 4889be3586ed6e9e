-- ===== src/Ingest.antt =====
-- crates/skb-core/src/ingest.rs: from a request to a stored document. Each child has one part of it.
pub mod Address
pub mod Text
pub mod Size
pub mod Fetch
pub mod Embed
pub mod Utf8
pub mod Source
pub mod Document
pub mod Store
pub mod Upload

-- ===== src/Crud.antt =====
-- crates/skb-core/src/crud.rs: listing, reading and deleting documents, and the reports on a store.
pub mod Requests
pub mod Listing
pub mod Documents
pub mod Tables
pub mod Ids
pub mod Deleted
pub mod Report

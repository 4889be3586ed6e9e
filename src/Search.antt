-- ===== src/Search.antt =====
-- crates/skb-core/src/search.rs: the limits and the check of a request, the terms to highlight, the
-- fusion of the two result lists, the filter on document fields, and the search over a backend.
pub mod Limits
pub mod Request
pub mod Terms
pub mod Hits
pub mod Fusion
pub mod Filter
pub mod Run

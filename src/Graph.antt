-- ===== src/Graph.antt =====
-- crates/skb-core/src/graph.rs: requests and entity ids, extraction of entities and sections from a
-- text, the traversal of a graph query, and the section hierarchy.
pub mod Requests
pub mod Ids
pub mod Frontmatter
pub mod Extract
pub mod Sections
pub mod Expand
pub mod Index
pub mod Rows
pub mod Query

-- ===== src/Tokenize.antt =====
-- crates/skb-core/src/tokenize.rs: Markdown headings of a text, and its division into chunks.
pub mod Headings
pub mod Chunk

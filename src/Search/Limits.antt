-- ===== src/Search/Limits.antt =====
-- The request limits of crates/skb-core/src/search.rs, which config.rs and graph.rs share.
use surreal_knowledge_base.Base.{ℕ}

abbrev pub max_top_k : ℕ
max_top_k = 1000

abbrev pub max_graph_expand : ℕ
max_graph_expand = 5

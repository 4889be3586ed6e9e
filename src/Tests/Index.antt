-- ===== src/Tests/Index.antt =====
-- The entities of a chunk, written to a store that keeps its statements
-- (crates/skb-core/src/graph.rs).
use surreal_knowledge_base.Base.{
  is_whitespace, starts_with, strip_prefix, trim_end, trim_start, ℕ, ◌≡◌, refl, sym, Text, lit,
  trim, none, List, [], ◌∷◌, map, length, All, text_eq, byte_len, drop_bytes,
}
use surreal_knowledge_base.Error.{ok, Outcome, ok-injective}
use surreal_knowledge_base.Tokenize.Headings.{heading_starts, is_heading_line}
use surreal_knowledge_base.Graph.Requests.{validate_entity}
use surreal_knowledge_base.Graph.Ids.{RecordId, entity_record_id, clean_entity_name}
use surreal_knowledge_base.Graph.Frontmatter.{frontmatter_list, frontmatter_body}
use surreal_knowledge_base.Graph.Extract.{
  Patterns, extract_entities, collected_entities, dedup_entities, heading_lines,
}
use surreal_knowledge_base.Graph.Index.{
  Run, Statement, insert_entity, relate_mentions, index_chunk_entities,
  index_chunk_entities_in_transaction, upsert_entity, link_chunk_to_entity,
}
use surreal_knowledge_base.Graph.Index.Agreement.{IsAccepting, index_chunk_entities_agrees}

abbrev patterns : Patterns
patterns = record {
  links = λ t. [];
  wiki_links = λ t. [];
  tags = λ t. lit "rust" ∷ [];
  heading = λ t. none;
}

abbrev chunk_1 : RecordId
chunk_1 = record { table = lit "chunk"; key = lit "1" }

abbrev parse_chunk : Text → Outcome Text RecordId
parse_chunk t = ok chunk_1

-- A store that takes every statement and keeps them, the last one first.
abbrev keep_statement : Run ℕ (List (Statement ℕ))
keep_statement w s = ok (ok (w ∷ s))

keep_statement-IsAccepting : IsAccepting keep_statement parse_chunk
keep_statement-IsAccepting = record { accepted = λ w s r h. (w ∷ s, sym (ok-injective h)) }

abbrev rust_link : RecordId
rust_link = record { table = lit "entity"; key = lit "rust" }

abbrev indexed : List (Statement ℕ)
indexed =
    relate_mentions chunk_1 rust_link ∷ insert_entity rust_link (lit "rust") (lit "tag") [] ∷ []

index_test :
    index_chunk_entities keep_statement parse_chunk patterns (lit "chunk:1") (lit "#rust") []
    ≡ ok (1, indexed)
unfolding index_chunk_entities upsert_entity link_chunk_to_entity validate_entity trim trim_start
    trim_end is_whitespace lit entity_record_id clean_entity_name extract_entities
    collected_entities dedup_entities frontmatter_list frontmatter_body strip_prefix starts_with
    heading_starts is_heading_line heading_lines text_eq byte_len drop_bytes
index_test = refl

index_chunk_entities_agrees_example :
    (1 ≡ length (extract_entities patterns (lit "#rust")))
    × All (λ e. validate_entity e ≡ ok tt) (extract_entities patterns (lit "#rust"))
    × (index_chunk_entities_in_transaction keep_statement parse_chunk patterns
          (lit "chunk:1")
          (lit "#rust")
          []
        ≡ ok (map (λ e. e.name) (extract_entities patterns (lit "#rust")), indexed))
index_chunk_entities_agrees_example =
    index_chunk_entities_agrees keep_statement parse_chunk patterns (lit "chunk:1") (lit "#rust") 1
      [] indexed keep_statement-IsAccepting index_test

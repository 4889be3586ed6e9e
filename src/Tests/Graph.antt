-- ===== src/Tests/Graph.antt =====
-- Extraction, ids, sections and queries on small inputs (crates/skb-core/src/graph.rs).
use surreal_knowledge_base.Base.{
  is_whitespace, starts_with, contains, split_once, strip_prefix, trim_end, trim_start, ◌<◌, ◌≡◌,
  ◌↔◌, ◌⊎◌, refl, Text, text_eq, lit, trim, is_empty, none, some, List, [], ◌∷◌, ◌++◌, any_by,
  false, length, All, arith, if◌then◌else◌,
}
use surreal_knowledge_base.Error.{ok}
use surreal_knowledge_base.Graph.Requests.{
  EntityInfo, GraphQueryRequest, validate_query, IsValidQuery, validate_query-eq-ok_iff,
}
use surreal_knowledge_base.Graph.Ids.Quoted.{IsSafe, read_rid, clean_entity_name-IsSafe}
use mathlib.Core.List.{Memᴰ}
use surreal_knowledge_base.Graph.Ids.{
  entity_record_id, RecordId, clean_entity_name, entity_rid, start_record_id, start_record_id_table,
}
use surreal_knowledge_base.Graph.Frontmatter.{frontmatter_list, IsNonempty, frontmatter_list-All}
use surreal_knowledge_base.Graph.Extract.{
  Patterns, extract_sections, AreDistinct, same_entity, collected_entities, extract_entities,
  extract_entities_exact,
}
use surreal_knowledge_base.Graph.Sections.{
  Write, Exec, link_section_hierarchy, link_nearest, link_section_hierarchy-link_nearest,
}
use surreal_knowledge_base.Graph.Rows.{
  to_string_vec, GraphStore, GraphEdge, GraphQueryResult, Value, NextRow,
}
use surreal_knowledge_base.Graph.Query.{
  walk, ask_neighbours, after_answer, push_node, emit, is_emitted, move_to, push_start, traverse,
  visit_neighbour, visit_row, start_walk, graph_query, neighbour_names,
}
use surreal_knowledge_base.Graph.Query.Bounds.{graph_query-IsBounded, IsBounded}
use surreal_knowledge_base.Graph.Query.Source.{later_edges_from_first}

abbrev note : Text
note = lit "---\ntags: [rust, db]\naliases:\n- notes\n---\n# Intro\n### Deep\n## Next\n"

frontmatter_list-All_example : All IsNonempty (frontmatter_list note (lit "tags"))
frontmatter_list-All_example = frontmatter_list-All note (lit "tags")

-- What the expressions capture in the note.
abbrev patterns : Patterns
patterns = record {
  links = λ t. [];
  wiki_links = λ t. [];
  tags = λ t. lit "rust" ∷ [];
  heading = λ t.
      if text_eq t (lit "# Intro")
      then some (1, lit "Intro")
      else if text_eq t (lit "### Deep")
      then some (3, lit "Deep")
      else if text_eq t (lit "## Next")
      then some (2, lit "Next")
      else none;
}

abbrev rust_tag : EntityInfo
rust_tag = record { name = lit "rust"; kind = lit "tag"; description = none }

extract_entities_exact_example :
    AreDistinct (extract_entities patterns note)
    × (any_by (same_entity rust_tag) (extract_entities patterns note)
        ≡ any_by (same_entity rust_tag) (collected_entities patterns note))
extract_entities_exact_example = extract_entities_exact patterns note rust_tag

-- A store that keeps the writes, the last one first.
abbrev log_write : Exec (List Write)
log_write w s = ok (ok (w ∷ s))

link_section_hierarchy-link_nearest_example :
    link_section_hierarchy log_write patterns note []
    ≡ link_nearest log_write [] (extract_sections patterns note) []
link_section_hierarchy-link_nearest_example =
    link_section_hierarchy-link_nearest log_write patterns note []

clean_entity_name-IsSafe_example :
    All IsSafe (clean_entity_name (lit "it's"))
    × (Memᴰ 39 (clean_entity_name (lit "it's")) ↔ (Memᴰ 39 (lit "it's") × IsSafe 39))
    × ((clean_entity_name (lit "it's") ≡ lit "it's") ↔ All IsSafe (lit "it's"))
    × (read_rid (entity_rid (lit "it's")) ≡ some (clean_entity_name (lit "it's")))
clean_entity_name-IsSafe_example = clean_entity_name-IsSafe (lit "it's") 39

abbrev rust_id : RecordId
rust_id = record { table = lit "entity"; key = lit "rust" }

start_record_id_test : start_record_id (lit "entity:rust") ≡ ok rust_id
unfolding start_record_id split_once lit text_eq
start_record_id_test = refl

start_record_id_table_example :
    ((rust_id.table ≡ lit "entity") ⊎ (rust_id.table ≡ lit "document"))
    × (is_empty rust_id.key ≡ false)
start_record_id_table_example =
    start_record_id_table (lit "entity:rust") rust_id start_record_id_test

abbrev query : GraphQueryRequest
query = record { from = lit "rust"; relation = none; depth = some 2; limit = some 3 }

validate_query-eq-ok_iff_example : (validate_query query ≡ ok tt) ↔ IsValidQuery query
validate_query-eq-ok_iff_example = validate_query-eq-ok_iff query

-- Every entity has the neighbours `a` and `b`.
abbrev next_row : NextRow
next_row = record {
  next_name = Value.array (some (lit "a") ∷ some (lit "b") ∷ []);
  next_kind = Value.array (some (lit "tag") ∷ []);
}

abbrev store : GraphStore
store = record {
  document = λ id. ok (ok []);
  mentioned = λ id. ok (ok []);
  neighbours = λ id name relation. ok (
      ok (
        record {
          id = some (lit "rust");
          name = some (lit "rust");
          kind = some (lit "tag");
          next = next_row;
        }
        ∷ []));
}

abbrev found : GraphQueryResult
found = record {
  nodes =
      record { id = lit "rust"; name = lit "rust"; kind = lit "tag"; depth = 0 }
      ∷ record { id = lit "entity:⟨a⟩"; name = lit "a"; kind = lit "tag"; depth = 1 }
      ∷ record { id = lit "entity:⟨b⟩"; name = lit "b"; kind = []; depth = 1 }
      ∷ [];
  edges =
      record { from = lit "entity:⟨rust⟩"; to = lit "entity:⟨a⟩"; relation = lit "related" }
      ∷ record { from = lit "entity:⟨a⟩"; to = lit "entity:⟨b⟩"; relation = lit "related" }
      ∷ [];
}

graph_query_test : graph_query store query ≡ ok found
unfolding graph_query validate_query trim lit is_whitespace starts_with start_walk contains
    entity_rid walk ask_neighbours start_record_id split_once text_eq after_answer neighbour_names
    to_string_vec push_node strip_prefix trim_end trim_start clean_entity_name entity_record_id emit
    is_emitted move_to push_start traverse visit_neighbour visit_row
graph_query_test = refl

graph_query-IsBounded_example : IsValidQuery query × IsBounded query found
graph_query-IsBounded_example = graph_query-IsBounded store query found graph_query_test

nothing_emitted : length (start_walk (lit "rust")).emitted < 3
unfolding start_walk
nothing_emitted = omega arith

none_seen : any_by (text_eq (entity_rid (lit "a"))) (start_walk (lit "rust")).emitted ≡ false
unfolding start_walk
none_seen = refl

later_edges_from_first_example :
    (later : List GraphEdge) × ((neighbour_names 3 2 0
        (lit "related")
        []
        0
        (lit "a" ∷ lit "b" ∷ [])
        (start_walk (lit "rust"))).edges
      ≡ (start_walk (lit "rust")).edges
        ++ record {
          from = (start_walk (lit "rust")).current;
          to = entity_rid (lit "a");
          relation = lit "related";
        }
          ∷ later)
    × All (λ e. e.from ≡ entity_rid (lit "a")) later
later_edges_from_first_example =
    later_edges_from_first 3 2 0 (lit "related") [] (lit "a") (lit "b" ∷ [])
      (start_walk (lit "rust")) (omega arith) nothing_emitted none_seen

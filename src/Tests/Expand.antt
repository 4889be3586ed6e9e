-- ===== src/Tests/Expand.antt =====
-- The expansion of a hit along two hops (crates/skb-core/src/graph.rs).
use surreal_knowledge_base.Base.{ℕ, ◌≡◌, refl, show, Text, lit, text_eq, none, some, [], ◌∷◌}
use surreal_knowledge_base.Base.Sort.{sort_by}
use surreal_knowledge_base.Error.{ok}
use surreal_knowledge_base.Search.Hits.{SearchHit}
use surreal_knowledge_base.Graph.Rows.{array, other}
use surreal_knowledge_base.Graph.Expand.{expand_search_hits}
use surreal_knowledge_base.Graph.Expand.Buckets.{ExpandStore}
use surreal_knowledge_base.Graph.Expand.Fresh.{IsNewOnce, expand_search_hits-IsNewOnce}
use surreal_knowledge_base.Tests.Search.{scores, compare_ℕ}

abbrev hit_of : Text → ℕ → SearchHit ℕ
hit_of document score = record {
  document_id = document;
  chunk_idx = 0;
  content = lit "text";
  score = score;
  title = none;
  source = none;
  highlights = none;
  matched_entities = none;
}

abbrev two_chunks : ExpandStore
two_chunks = record {
  mentions = λ ids. ok (
      ok (
        record { document = some (lit "a"); idx = some 0; e = array (some (lit "Alpha") ∷ []) }
        ∷ []));
  related = λ names. ok (ok (array (some (lit "Beta") ∷ []) ∷ []));
  found = λ names. ok (
      ok (
        record {
          content = some (lit "text");
          idx = some 0;
          document = some (lit "b");
          title = none;
          source = none;
          e = other;
        }
        ∷ record {
          content = some (lit "text");
          idx = some 0;
          document = some (lit "a");
          title = none;
          source = none;
          e = other;
        }
        ∷ []));
}

-- The chunk of the hit itself is not found again.
expand_test :
    expand_search_hits scores two_chunks (hit_of (lit "a") 5 ∷ []) 2
    ≡ ok (hit_of (lit "b") 0 ∷ [], (lit "a/0", lit "Alpha" ∷ []) ∷ [])
unfolding expand_search_hits text_eq lit sort_by show scores compare_ℕ
expand_test = refl

expand_search_hits-IsNewOnce_example :
    IsNewOnce (hit_of (lit "a") 5 ∷ []) (hit_of (lit "b") 0 ∷ []) (lit "b", 0)
expand_search_hits-IsNewOnce_example =
    expand_search_hits-IsNewOnce scores two_chunks (hit_of (lit "a") 5 ∷ []) 2
      (hit_of (lit "b") 0 ∷ []) ((lit "a/0", lit "Alpha" ∷ []) ∷ []) (lit "b", 0) expand_test

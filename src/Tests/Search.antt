-- ===== src/Tests/Search.antt =====
-- A search over two chunks (crates/skb-core/src/search.rs), with natural numbers for scores.
use mathlib.Core.List.{Permᴰ}
use surreal_knowledge_base.Base.{
  ℕ, ◌+◌, ◌*◌, ◌/◌, ◌≤◌, ◌≡◌, ◌⊎◌, ◌↔◌, refl, Text, text_eq, lit, Option, none, some, List, [], ◌∷◌,
  map, ltb, ◌==◌, true, leb, take, length, All, arith, if◌then◌else◌, ◌&&◌,
}
use surreal_knowledge_base.Error.{ok}
use surreal_knowledge_base.Base.Float.{Float, IsOrdered, Order, less, equal, greater}
use surreal_knowledge_base.Base.Map.{get, put}
use surreal_knowledge_base.Base.Sort.{IsStrict}
use surreal_knowledge_base.Config.{keyword}
use surreal_knowledge_base.Search.Request.{
  SearchRequest, validate, IsValid, validate_request-eq-ok_iff,
}
use surreal_knowledge_base.Search.Terms.{Unicode, match_terms, match_terms-IsStrict}
use surreal_knowledge_base.Search.Hits.{Row, SearchHit}
use surreal_knowledge_base.Search.Fusion.{RankedHit, fuse, ranking, key, merge_rows}
use surreal_knowledge_base.Search.Fusion.Scores.{
  standing_of, vector_standing, keyword_standing, fuse_standing,
}
use surreal_knowledge_base.Search.Fusion.Ranking.{
  HasOwnHighlights, ranking-order_free, merge_rows_bounded,
}
use surreal_knowledge_base.Search.Filter.{
  filter_fields, keep_hits, rows_by_id, DocRow, Query, apply_filter, validate_filter_fields,
}
use surreal_knowledge_base.Search.Filter.Kept.{AllowedField, IsFiltered, apply_filter-IsFiltered}
use surreal_knowledge_base.Search.Run.{Backend, SearchResponse}

unfoldable pub compare_ℕ : ℕ → ℕ → Option Order
compare_ℕ a b = if ltb a b then some less else if a == b then some equal else some greater

unfoldable pub scores : Float ℕ
unfolding compare_ℕ
scores = record {
  of_ℕ = λ n. n;
  add = λ a b. a + b;
  mul = λ a b. a * b;
  div = λ a b. a / b;
  partial_cmp = compare_ℕ;
}

scores-IsOrdered : IsOrdered scores
unfolding compare_ℕ scores
scores-IsOrdered = record {
  flip_less = λ a b. (λ h. ground arith, λ h. ground arith);
  equal_iff = λ a b. (λ h. ground arith, λ h. ground arith);
  comparable = λ a b h. ground arith;
  trans_less = λ a b c h k. ground arith;
}

-- The ASCII part of the tables.
abbrev pub ascii : Unicode
ascii = record { is_alphanumeric = λ c. leb b'a' c && leb c b'z'; to_lowercase = λ t. t }

abbrev row : Text → Text → Text → Row ℕ
row id content document = record {
  chunk_id = some id;
  content = some content;
  idx = some 0;
  document = some document;
  title = none;
  source = none;
  score = some 1;
}

abbrev rows : List (Row ℕ)
unfolding lit
rows = row (lit "c1") (lit "graph") (lit "d1") ∷ row (lit "c2") (lit "tree") (lit "d2") ∷ []

abbrev doc : Text → Text → DocRow
doc id title = record {
  id = some id;
  field = λ k. if text_eq k (lit "title") then some title else none;
}

abbrev documents : List Text → List Text → Query (List DocRow)
documents ids fields = ok (ok (doc (lit "d1") (lit "A") ∷ doc (lit "d2") (lit "B") ∷ []))

abbrev backend : Backend ℕ ℕ
backend = record {
  embed_batch = λ texts. ok (map (λ t. 0) texts);
  nearest = λ v k. ok (ok (take k rows));
  matching = λ t k. ok (ok (take k rows));
  documents = documents;
}

abbrev request : SearchRequest
request = record {
  query = lit "graph";
  mode = some keyword;
  top_k = some 1;
  graph_expand = none;
  filter = none;
}

validate_request-eq-ok_iff_example : (validate request ≡ ok tt) ↔ IsValid request
validate_request-eq-ok_iff_example = validate_request-eq-ok_iff request

match_terms-IsStrict_example : IsStrict (match_terms ascii (lit "tree graph tree"))
match_terms-IsStrict_example = match_terms-IsStrict ascii (lit "tree graph tree")

fuse_standing_example :
    standing_of (get (lit "c1") (fuse scores 60 rows rows))
    ≡ keyword_standing scores 60 (lit "c1") 0 rows (vector_standing scores 60 (lit "c1") 0 rows)
fuse_standing_example = fuse_standing scores 60 (lit "c1") rows rows

abbrev entry : Text → ℕ → Text × RankedHit ℕ
entry id score = (
  id,
  record {
    score = score;
    content = lit "graph";
    idx = 0;
    document = lit "d1";
    title = none;
    source = none;
    keyword_matched = true;
  },
)

ranking-order_free_example :
    map (key scores) (ranking scores 1 (entry (lit "c1") 3 ∷ entry (lit "c2") 5 ∷ []))
    ≡ map (key scores) (ranking scores 1 (entry (lit "c2") 5 ∷ entry (lit "c1") 3 ∷ []))
ranking-order_free_example =
    ranking-order_free scores 1 scores-IsOrdered (Permᴰ.swap {l = []} refl refl)

merge_rows_bounded_example :
    (length (merge_rows scores ascii 60 1 (lit "graph" ∷ []) rows rows) ≤ 1)
    × All (HasOwnHighlights ascii) (merge_rows scores ascii 60 1 (lit "graph" ∷ []) rows rows)
merge_rows_bounded_example = merge_rows_bounded scores ascii 60 1 (lit "graph" ∷ []) rows rows

abbrev hit : Text → Text → SearchHit ℕ
hit document content = record {
  document_id = document;
  chunk_idx = 0;
  content = content;
  score = 1;
  title = none;
  source = none;
  highlights = none;
  matched_entities = none;
}

abbrev title_b : Text × Text
title_b = (lit "title", lit "B")

abbrev two_hits : List (SearchHit ℕ)
two_hits = hit (lit "d1") (lit "graph") ∷ hit (lit "d2") (lit "tree") ∷ []

filter_test :
    apply_filter documents
      (hit (lit "d1") (lit "graph") ∷ hit (lit "d2") (lit "tree") ∷ [])
      (title_b ∷ [])
    ≡ ok (hit (lit "d2") (lit "tree") ∷ [])
unfolding apply_filter validate_filter_fields filter_fields text_eq lit keep_hits get rows_by_id put
filter_test = refl

apply_filter-IsFiltered_example :
    All (λ e. AllowedField e.0) (title_b ∷ [])
    × (((two_hits ≡ []) × ((hit (lit "d2") (lit "tree") ∷ []) ≡ []))
        ⊎ IsFiltered documents (title_b ∷ []) two_hits (hit (lit "d2") (lit "tree") ∷ []))
apply_filter-IsFiltered_example =
    apply_filter-IsFiltered documents two_hits (hit (lit "d2") (lit "tree") ∷ []) title_b []
      filter_test

abbrev response : SearchResponse ℕ
response = record {
  hits = record (hit (lit "d1") (lit "graph")) { highlights = some (lit "graph" ∷ []) } ∷ [];
  mode = keyword;
  elapsed_ms = 7;
}

-- ===== src/Search/Run.antt =====
-- `search`, `vector_search`, `keyword_search` and `hybrid_search` of crates/skb-core/src/search.rs
-- over a backend: the embedder and the database queries, which only read.
use surreal_knowledge_base.Base.{
  ℕ, ◌*◌, ◌≤◌, ◌≡◌, Text, lit, Option, none, some, List, [], ◌∷◌, length,
}
use surreal_knowledge_base.Error.{ErrorCode, SkbError, skb_error, Outcome, ok, ◌>>=◌, ◌>>◌, ok_or}
use surreal_knowledge_base.Base.Float.{Float}
use surreal_knowledge_base.Config.{SearchMode, hybrid, vector, keyword}
use surreal_knowledge_base.Search.Limits.{max_top_k}
use surreal_knowledge_base.Search.Request.{SearchRequest, validate, IsValid}
use surreal_knowledge_base.Search.Terms.{Unicode, match_terms}
use surreal_knowledge_base.Search.Hits.{Row, SearchHit, unwrap_or, rows_to_hits}
use surreal_knowledge_base.Search.Fusion.{merge_rows}
use surreal_knowledge_base.Search.Filter.{DocRow, Query, fetch, apply_filter}

-- `V` is an embedding vector, `F` is `f64`.
pub record Backend (V F : Type 0) : Type 0 where
  pub embed_batch : List Text → Outcome SkbError (List V)
  -- The nearest chunks of a vector, at most so many.
  pub nearest : V → ℕ → Query (List (Row F))
  -- The chunks that match a text, at most so many.
  pub matching : Text → ℕ → Query (List (Row F))
  pub documents : List Text → List Text → Query (List DocRow)

pub record SearchResponse (F : Type 0) : Type 0 where
  pub hits : List (SearchHit F)
  pub mode : SearchMode
  pub elapsed_ms : ℕ

first : {V : Type 0} → List V → Option V
first [] = none
first (v ∷ _) = some v

-- What a response has of its request.
abbrev Answers : {F : Type 0} → SearchRequest → SearchResponse F → Type 0
Answers req r =
    IsValid req
    × (r.mode ≡ unwrap_or hybrid req.mode)
    × (length r.hits ≤ unwrap_or 10 req.top_k)
    × (length r.hits ≤ max_top_k)

module _ {V F : Type 0} (f : Float F) (u : Unicode) (backend : Backend V F) where
  embed_query : Text → Outcome SkbError V
  unfolding first
  embed_query query = do
    vs ← backend.embed_batch (query ∷ [])
    ok_or (skb_error ErrorCode.embedding (lit "no embedding")) (first vs)

  unfoldable pub vector_search : Text → ℕ → Outcome SkbError (List (SearchHit F))
  unfolding embed_query
  vector_search query top_k = do
    v ← embed_query query
    rows ← fetch (lit "vector") (backend.nearest v top_k)
    ok (rows_to_hits u (f.of_ℕ 0) rows none)

  unfoldable pub keyword_search : Text → ℕ → Outcome SkbError (List (SearchHit F))
  keyword_search query top_k = do
    rows ← fetch (lit "keyword") (backend.matching query top_k)
    ok (rows_to_hits u (f.of_ℕ 0) rows (some (match_terms u query)))

  unfoldable pub hybrid_search : Text → ℕ → ℕ → Outcome SkbError (List (SearchHit F))
  unfolding embed_query
  hybrid_search query top_k rrf_k = do
    let fetch_k = top_k * 3
    v ← embed_query query
    vrows ← fetch (lit "hybrid vec") (backend.nearest v fetch_k)
    krows ← fetch (lit "hybrid kw") (backend.matching query fetch_k)
    ok (merge_rows f u rrf_k top_k (match_terms u query) vrows krows)

  search_by : SearchMode → Text → ℕ → ℕ → Outcome SkbError (List (SearchHit F))
  search_by vector query top_k rrf_k = vector_search query top_k
  search_by keyword query top_k rrf_k = keyword_search query top_k
  search_by hybrid query top_k rrf_k = hybrid_search query top_k rrf_k

  filtered :
      Option (List (Text × Text)) → List (SearchHit F) → Outcome SkbError (List (SearchHit F))
  filtered none hits = ok hits
  filtered (some filter) hits = apply_filter backend.documents hits filter

  -- `search`; `elapsed` is what the clock measured.
  unfoldable pub search_chunks : ℕ → SearchRequest → ℕ → Outcome SkbError (SearchResponse F)
  unfolding search_by filtered
  search_chunks rrf_k req elapsed = do
    validate req
    let mode = unwrap_or hybrid req.mode
    let top_k = unwrap_or 10 req.top_k
    hits ← search_by mode req.query top_k rrf_k
    hits ← filtered req.filter hits
    ok (record { hits = hits; mode = mode; elapsed_ms = elapsed })

  -- What `LIMIT` promises of the two queries.
  pub record IsLimited : Type 0 where
    pub nearest :
        (v : V) (k : ℕ) (rows : List (Row F)) → backend.nearest v k ≡ ok (ok rows) → length rows ≤ k
    pub matching :
        (t : Text) (k : ℕ) (rows : List (Row F))
        → backend.matching t k ≡ ok (ok rows)
        → length rows ≤ k

-- ===== src/Facade/Search.antt =====
-- `KnowledgeBase::search` of crates/skb-core/src/lib.rs: the defaults, the search, and its hits expanded
-- along the graph and ranked again.
use surreal_knowledge_base.Base.{
  ℕ, zero, suc, leb, Text, text_eq, Bool, true, false, none, some, List, [], ◌∷◌, ◌++◌, map, take,
  if◌then◌else◌,
}
use surreal_knowledge_base.Base.Float.{Float, less, equal, greater}
use surreal_knowledge_base.Base.Map.{get}
use surreal_knowledge_base.Base.Sort.{sort_by, text_le}
use surreal_knowledge_base.Error.{SkbError, Outcome, ok, ◌>>=◌}
use surreal_knowledge_base.Config.{Config}
use surreal_knowledge_base.Search.Terms.{Unicode}
use surreal_knowledge_base.Search.Hits.{SearchHit, unwrap_or}
use surreal_knowledge_base.Search.Request.{SearchRequest}
use surreal_knowledge_base.Search.Run.{Backend, SearchResponse, search_chunks}
use surreal_knowledge_base.Graph.Expand.{expand_search_hits}
use surreal_knowledge_base.Graph.Expand.Buckets.{ExpandStore, origin_key}

unfoldable pub with_defaults : Config → SearchRequest → SearchRequest
with_defaults config req = record req {
  mode = some (unwrap_or config.search.default_mode req.mode);
  top_k = some (unwrap_or config.search.top_k req.top_k);
}

module _ {F : Type 0} (f : Float F) where
  -- A hit with the entities of its chunk, if there are any.
  unfoldable pub enrich : List (Text × List Text) → SearchHit F → SearchHit F
  unfolding get origin_key
  enrich origin hit = elim (unwrap_or [] (get (origin_key hit.document_id hit.chunk_idx) origin)) [
    | [] ↦ hit
    | e ∷ es ↦ record hit { matched_entities = some (e ∷ es) }
  ]

  by_place : SearchHit F → SearchHit F → Bool
  by_place a b =
      if text_eq a.document_id b.document_id
      then leb a.chunk_idx b.chunk_idx
      else text_le a.document_id b.document_id

  -- The comparison of the last ranking: higher scores first, then by place.
  unfoldable pub hit_le : SearchHit F → SearchHit F → Bool
  unfolding by_place
  hit_le a b = elim (f.partial_cmp b.score a.score) [
    | none ↦ by_place a b
    | some less ↦ true
    | some equal ↦ by_place a b
    | some greater ↦ false
  ]

  unfoldable pub rerank :
      ℕ → List (SearchHit F) → List (SearchHit F) × List (Text × List Text) → List (SearchHit F)
  unfolding enrich hit_le
  rerank top_k hits (expanded, origin) =
      take top_k (sort_by hit_le (map (enrich origin) hits ++ expanded))

  -- The expansion, if it is asked for and there are hits.
  unfoldable pub expand_if :
      ExpandStore → ℕ → ℕ → List (SearchHit F) → Outcome SkbError (List (SearchHit F))
  unfolding rerank expand_search_hits
  expand_if store zero top_k hits = ok hits
  expand_if store (suc hops) top_k [] = ok []
  expand_if store (suc hops) top_k (hit ∷ hits) = do
    found ← expand_search_hits f store (hit ∷ hits) (suc hops)
    ok (rerank top_k (hit ∷ hits) found)

  -- `KnowledgeBase::search`
  unfoldable pub search_expanded :
      {V : Type 0}
      → Unicode
      → Backend V F
      → ExpandStore
      → Config
      → SearchRequest
      → ℕ
      → Outcome SkbError (SearchResponse F)
  unfolding with_defaults expand_if
  search_expanded u backend store config req elapsed = do
    r ← search_chunks f u backend config.search.rrf_k (with_defaults config req) elapsed
    hits ←
        expand_if store (unwrap_or 0 req.graph_expand) (unwrap_or config.search.top_k req.top_k)
          r.hits
    ok (record r { hits = hits })

-- ===== src/Graph/Expand.antt =====
-- `expand_search_hits` of crates/skb-core/src/graph.rs. The three queries are parameters; `F` is `f64`.
pub mod Buckets
pub mod Count
pub mod Fresh
use surreal_knowledge_base.Base.{
  ℕ, zero, suc, ◌+◌, ◌==◌, ltb, Text, lit, text_eq, is_empty, Bool, true, false, none, some, List,
  [], ◌∷◌, ◌++◌, map, length, take, if◌then◌else◌,
}
use surreal_knowledge_base.Base.Float.{Float, less, equal, greater}
use surreal_knowledge_base.Base.Map.{get}
use surreal_knowledge_base.Base.Sort.{sort_by, text_le}
use surreal_knowledge_base.Error.{SkbError, Outcome, ok, ◌>>=◌}
use surreal_knowledge_base.Search.Filter.{fetch}
use surreal_knowledge_base.Search.Hits.{SearchHit, unwrap_or, text_or_empty}
use surreal_knowledge_base.Search.Fusion.{key_le}
use surreal_knowledge_base.Graph.Rows.{to_string_vec}
use surreal_knowledge_base.Graph.Expand.Buckets.{
  FoundRow, ExpandStore, ChunkKey, expand_origin_limit, frontier_max, has_chunk, remove_names,
  bucket_rows, unique_documents, origin_key, push_origins, visit, all_names,
}

-- What the loop over the hits changes.
pub record Expansion (F : Type 0) : Type 0 where
  pub expanded : List (SearchHit F)
  pub origin_entities : List (Text × List Text)
  pub seen_chunks : List ChunkKey
  pub by_hit : List (ChunkKey × List Text)

module _ {F : Type 0} (f : Float F) where
  -- `0.95_f64`, which the division gives.
  abbrev near_one : F
  near_one = f.div (f.of_ℕ 95) (f.of_ℕ 100)

  -- `score.max(0.0)`
  unfoldable pub at_least_zero : F → F
  at_least_zero score = elim (f.partial_cmp score (f.of_ℕ 0)) [
    | none ↦ f.of_ℕ 0
    | some less ↦ f.of_ℕ 0
    | some equal ↦ score
    | some greater ↦ score
  ]

  -- `partial_cmp(…) == Greater`
  unfoldable pub exceeds : F → F → Bool
  exceeds a b = elim (f.partial_cmp a b) [
    | none ↦ false
    | some less ↦ false
    | some equal ↦ false
    | some greater ↦ true
  ]

  unfoldable pub cap_by_name : List (Text × F) → List (Text × F)
  cap_by_name frontier =
      if ltb frontier_max (length frontier)
      then take frontier_max (sort_by (λ a b. text_le a.0 b.0) frontier)
      else frontier

  -- The closest entities first, then by name.
  unfoldable pub closest : List (Text × F) → List (Text × F)
  closest frontier = take frontier_max (sort_by (key_le f) frontier)

  unfoldable pub cap_by_decay : List (Text × F) → List (Text × F)
  unfolding closest
  cap_by_decay frontier = if ltb frontier_max (length frontier) then closest frontier else frontier

  -- The best decay of each entity.
  unfoldable pub put_best : Text → F → List (Text × F) → List (Text × F)
  unfolding exceeds
  put_best entity decay [] = (entity, decay) ∷ []
  put_best entity decay ((e, d) ∷ m) =
      let rest = put_best entity decay m in
      if text_eq e entity then (e, if exceeds decay d then decay else d) ∷ m else (e, d) ∷ rest

  unfoldable pub best_of : List (Text × F) → List (Text × F) → List (Text × F)
  unfolding put_best
  best_of [] m = m
  best_of ((entity, decay) ∷ frontier) m = best_of frontier (put_best entity decay m)

  -- `max_by`: of equal ones the last.
  unfoldable pub max_decay : F × Text → List (F × Text) → F × Text
  unfolding exceeds
  max_decay x [] = x
  max_decay x (y ∷ ys) = max_decay (if exceeds x.0 y.0 then x else y) ys

  unfoldable pub decays_of : List (Text × F) → List Text → List (F × Text)
  unfolding get
  decays_of decay_map [] = []
  decays_of decay_map (e ∷ es) = elim (get e decay_map) [
    | none ↦ decays_of decay_map es
    | some d ↦ (d, e) ∷ decays_of decay_map es
  ]

  first_name : List Text → Text
  first_name [] = []
  first_name (e ∷ _) = e

  unfoldable pub best_match : List (Text × F) → List Text → F × Text
  unfolding decays_of max_decay first_name
  best_match decay_map matched = elim (decays_of decay_map matched) [
    | [] ↦ (near_one, first_name matched)
    | x ∷ xs ↦ max_decay x xs
  ]

module _ {F : Type 0} (f : Float F) (store : ExpandStore) where
  -- The hops from a number on: the frontier grows by the neighbours of what is not visited yet.
  unfoldable pub expand_hops :
      ℕ → ℕ → List (Text × F) → List Text → Outcome SkbError (List (Text × F))
  unfolding visit all_names cap_by_decay
  expand_hops zero hop frontier visited = ok frontier
  expand_hops (suc left) hop frontier visited =
      let (new, seen) = visit (map (λ p. p.0) frontier) visited in
      let next = fetch (lit "expand hop") (store.related new) >>= λ rows.
      expand_hops left (hop + 1)
        (cap_by_decay f
          (frontier ++ map (λ n. (n, f.div (f.of_ℕ 1) (f.of_ℕ hop))) (all_names rows)))
        seen in
      elim new [ [] ↦ ok frontier | _ ∷ _ ↦ next ]

  found_hit : F → F × Text → FoundRow → SearchHit F
  found_hit origin_score (decay, entity) row = record {
    document_id = text_or_empty row.document;
    chunk_idx = unwrap_or 0 row.idx;
    content = text_or_empty row.content;
    score = f.mul origin_score decay;
    title = row.title;
    source = row.source;
    highlights = none;
    matched_entities = if is_empty entity then none else some (entity ∷ []);
  }

  unfoldable pub add_found : F → List (Text × F) → List FoundRow → Expansion F → Expansion F
  unfolding has_chunk best_match to_string_vec found_hit
  add_found origin_score decay_map [] x = x
  add_found origin_score decay_map (row ∷ rows) x =
      let key : ChunkKey = (text_or_empty row.document, unwrap_or 0 row.idx) in
      let hit = found_hit origin_score (best_match f decay_map (to_string_vec row.e)) row in
      add_found origin_score decay_map rows (
        if has_chunk key x.seen_chunks
        then x
        else record x { expanded = x.expanded ++ (hit ∷ []); seen_chunks = key ∷ x.seen_chunks })

  -- The expansion from one hit, with its entities.
  unfoldable pub expand_from :
      ℕ → SearchHit F → List Text → Expansion F → Outcome SkbError (Expansion F)
  unfolding expand_hops cap_by_name best_of closest add_found at_least_zero
  expand_from hops hit names x = do
    frontier ← expand_hops hops 2 (cap_by_name f (map (λ n. (n, near_one f)) names)) []
    let best = closest f (best_of f frontier [])
    rows ← fetch (lit "expand2") (store.found (map (λ p. p.0) best))
    ok (add_found (at_least_zero f hit.score) best rows x)

  -- The loop over the hits; only the first ones are expanded.
  unfoldable pub expand_hits :
      ℕ → ℕ → List (SearchHit F) → Expansion F → Outcome SkbError (Expansion F)
  unfolding remove_names push_origins origin_key expand_from
  expand_hits hops hit_idx [] x = ok x
  expand_hits hops hit_idx (hit ∷ hits) x =
      let (names, by_hit) = remove_names (hit.document_id, hit.chunk_idx) x.by_hit in
      let noted : Expansion F = record x {
        by_hit = by_hit;
        origin_entities =
            push_origins (origin_key hit.document_id hit.chunk_idx) names x.origin_entities;
      } in
      (if ltb hit_idx expand_origin_limit then expand_from hops hit names noted else ok noted)
      >>= λ x. expand_hits hops (hit_idx + 1) hits x

  by_score : SearchHit F → SearchHit F → Bool
  by_score a b = elim (f.partial_cmp b.score a.score) [
    | none ↦ true
    | some less ↦ true
    | some equal ↦ true
    | some greater ↦ false
  ]

  expand_all :
      ℕ → List (SearchHit F) → Outcome SkbError (List (SearchHit F) × List (Text × List Text))
  unfolding expand_hits bucket_rows unique_documents by_score
  expand_all hops hits = do
    let keys = map (λ h. (h.document_id, h.chunk_idx)) hits
    rows ← fetch (lit "expand") (store.mentions (unique_documents (map (λ h. h.document_id) hits)))
    x ← expand_hits hops 0 hits (record {
      expanded = [];
      origin_entities = [];
      seen_chunks = keys;
      by_hit = bucket_rows keys rows [];
    })
    ok (sort_by by_score x.expanded, x.origin_entities)

  -- `expand_search_hits`
  unfoldable pub expand_search_hits :
      List (SearchHit F) → ℕ → Outcome SkbError (List (SearchHit F) × List (Text × List Text))
  unfolding expand_all
  expand_search_hits [] max_expand = ok ([], [])
  expand_search_hits (hit ∷ hits) zero = ok ([], [])
  expand_search_hits (hit ∷ hits) (suc hops) = expand_all hops (hit ∷ hits)

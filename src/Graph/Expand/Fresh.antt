-- ===== src/Graph/Expand/Fresh.antt =====
-- The chunks that `expand_search_hits` of crates/skb-core/src/graph.rs finds are new.
use surreal_knowledge_base.Base.{
  ℕ, zero, suc, ◌+◌, ltb, ◌≡◌, refl, sym, ap, ◌∙◌, subst, ◌⊎◌, inl, inr, Text, lit, Bool, true,
  false, false≢true, ◌||◌, Bool-cases, List, [], ◌∷◌, ◌++◌, map, if◌then◌else◌, arith,
}
use surreal_knowledge_base.Base.Float.{Float}
use surreal_knowledge_base.Error.{ok, >>=-eq-ok, ok-injective}
use surreal_knowledge_base.Search.Filter.{fetch}
use surreal_knowledge_base.Search.Hits.{SearchHit}
use surreal_knowledge_base.Graph.Rows.{to_string_vec}
use surreal_knowledge_base.Graph.Expand.Buckets.{
  FoundRow, ExpandStore, ChunkKey, expand_origin_limit, same_chunk, has_chunk, remove_names,
  push_origins, origin_key, bucket_rows, unique_documents,
}
use surreal_knowledge_base.Graph.Expand.{
  Expansion, expand_from, expand_hits, expand_all, expand_search_hits, expand_hops, cap_by_name,
  near_one, closest, best_of, at_least_zero, found_hit, best_match, add_found, by_score,
}
use surreal_knowledge_base.Graph.Expand.Count.{
  at_place, at_place-true, key_of, count_chunk, count_chunk-snoc, count_chunk-sort_by,
}

module _ {F : Type 0} where
  -- A chunk is not among the found ones, or it is there once and is none of the hits.
  abbrev pub IsNewOnce : List (SearchHit F) → List (SearchHit F) → ChunkKey → Type 0
  IsNewOnce hits found k =
      (count_chunk k found ≡ 0) ⊎ ((count_chunk k hits ≡ 0) × (count_chunk k found ≡ 1))

  -- So is every chunk, and one that was not seen is neither a hit nor found.
  record IsFresh (hits found : List (SearchHit F)) (seen : List ChunkKey) : Type 0 where
    new_once : (k : ChunkKey) → IsNewOnce hits found k
    unseen :
        (k : ChunkKey)
        → has_chunk k seen ≡ false
        → (count_chunk k hits ≡ 0) × (count_chunk k found ≡ 0)

  no_chunks :
      (k : ChunkKey) (hits : List (SearchHit F))
      → has_chunk k (map key_of hits) ≡ false
      → count_chunk k hits ≡ 0
  unfolding count_chunk has_chunk same_chunk
  no_chunks k [] h = refl
  no_chunks k (x ∷ hits) h = ground (arith, no_chunks k hits)

  start-IsFresh : (hits : List (SearchHit F)) → IsFresh hits [] (map key_of hits)
  unfolding count_chunk
  start-IsFresh hits = record {
    new_once = λ k. inl refl;
    unseen = λ k h. (no_chunks k hits h, refl);
  }

  -- A chunk that was not seen is found.
  add-IsFresh :
      (hits found : List (SearchHit F)) (seen : List ChunkKey) (h : SearchHit F)
      → has_chunk (key_of h) seen ≡ false
      → IsFresh hits found seen
      → IsFresh hits (found ++ (h ∷ [])) (key_of h ∷ seen)
  unfolding has_chunk same_chunk
  add-IsFresh hits found seen h other fresh = record {
    new_once = λ k. elim (Bool-cases (at_place k (key_of h))) [
      | inl e ↦
          let (direct, none_yet) =
            fresh.unseen k (ap (λ j. has_chunk j seen) (at_place-true k (key_of h) e) ∙ other) in
          inr (
            direct,
            count_chunk-snoc k found h
                ∙ ap (λ b. if b then count_chunk k found + 1 else count_chunk k found) e
                ∙ ap (λ n. n + 1) none_yet,
          )
      | inr e ↦
          subst (λ n. (n ≡ 0) ⊎ ((count_chunk k hits ≡ 0) × (n ≡ 1))) (sym (unchanged k e))
            (fresh.new_once k)
    ];
    unseen = λ k e. elim (Bool-cases (at_place k (key_of h))) [
      | inl same ↦ absurd (false≢true (sym e ∙ ap (λ b. b || has_chunk k seen) same))
      | inr apart ↦
          let (direct, none_yet) =
            fresh.unseen k (sym (ap (λ b. b || has_chunk k seen) apart) ∙ e) in
          (direct, unchanged k apart ∙ none_yet)
    ];
  }
    where
      unchanged :
          (k : ChunkKey)
          → at_place k (key_of h) ≡ false
          → count_chunk k (found ++ (h ∷ [])) ≡ count_chunk k found
      unchanged k e =
          count_chunk-snoc k found h
          ∙ ap (λ b. if b then count_chunk k found + 1 else count_chunk k found) e

module _ {F : Type 0} (f : Float F) (store : ExpandStore) (hits : List (SearchHit F)) where
  IsFreshIn : Expansion F → Type 0
  IsFreshIn x = IsFresh hits x.expanded x.seen_chunks

  add_found-IsFresh :
      (score : F) (decays : List (Text × F)) (rows : List FoundRow) (x : Expansion F)
      → IsFreshIn x
      → IsFreshIn (add_found f store score decays rows x)
  unfolding add_found IsFreshIn found_hit
  add_found-IsFresh score decays [] x fresh = fresh
  add_found-IsFresh score decays (row ∷ rows) x fresh =
      let hit = found_hit f store score (best_match f decays (to_string_vec row.e)) row in
      add_found-IsFresh score decays rows
        (if has_chunk (key_of hit) x.seen_chunks then x else record x {
          expanded = x.expanded ++ (hit ∷ []);
          seen_chunks = key_of hit ∷ x.seen_chunks;
        })
        (by_seen hit (has_chunk (key_of hit) x.seen_chunks) refl)
    where
      by_seen :
          (hit : SearchHit F) (b : Bool)
          → has_chunk (key_of hit) x.seen_chunks ≡ b
          → IsFreshIn (
              if b then x else record x {
                expanded = x.expanded ++ (hit ∷ []);
                seen_chunks = key_of hit ∷ x.seen_chunks;
              })
      by_seen hit true e = fresh
      by_seen hit false e = add-IsFresh hits x.expanded x.seen_chunks hit e fresh

  expand_from-IsFresh :
      (hops : ℕ) (hit : SearchHit F) (names : List Text) (x y : Expansion F)
      → IsFreshIn x
      → expand_from f store hops hit names x ≡ ok y
      → IsFreshIn y
  unfolding expand_from
  expand_from-IsFresh hops hit names x y fresh h =
      let (frontier, _, h) =
        >>=-eq-ok (expand_hops f store hops 2 (cap_by_name f (map (λ n. (n, near_one f)) names)) [])
          _ h in
      let (rows, _, h) =
        >>=-eq-ok
          (fetch (lit "expand2") (store.found (map (λ p. p.0) (closest f (best_of f frontier [])))))
          _ h in
      subst IsFreshIn (ok-injective h) (
        add_found-IsFresh (at_least_zero f hit.score) (closest f (best_of f frontier [])) rows x
          fresh)

  expand_hits-IsFresh :
      (hops hit_idx : ℕ) (rest : List (SearchHit F)) (x y : Expansion F)
      → IsFreshIn x
      → expand_hits f store hops hit_idx rest x ≡ ok y
      → IsFreshIn y
  unfolding expand_hits IsFreshIn
  expand_hits-IsFresh hops hit_idx [] x y fresh h = subst IsFreshIn (ok-injective h) fresh
  expand_hits-IsFresh hops hit_idx (hit ∷ rest) x y fresh h =
      let noted : Expansion F = record x {
        by_hit = (remove_names (hit.document_id, hit.chunk_idx) x.by_hit).1;
        origin_entities =
            push_origins (origin_key hit.document_id hit.chunk_idx)
              (remove_names (hit.document_id, hit.chunk_idx) x.by_hit).0 x.origin_entities;
      } in
      let (z, step, h) =
        >>=-eq-ok
          (if ltb hit_idx expand_origin_limit
            then expand_from f store hops hit
                (remove_names (hit.document_id, hit.chunk_idx) x.by_hit).0 noted
            else ok noted)
          _ h in
      expand_hits-IsFresh hops (hit_idx + 1) rest z y
        (by_limit (ltb hit_idx expand_origin_limit) hit
          (remove_names (hit.document_id, hit.chunk_idx) x.by_hit).0 noted z fresh step)
        h
    where
      by_limit :
          (b : Bool) (hit : SearchHit F) (names : List Text) (noted z : Expansion F)
          → IsFreshIn noted
          → (if b then expand_from f store hops hit names noted else ok noted) ≡ ok z
          → IsFreshIn z
      by_limit true hit names noted z fresh e = expand_from-IsFresh hops hit names noted z fresh e
      by_limit false hit names noted z fresh e = subst IsFreshIn (ok-injective e) fresh

  expand_all-IsNewOnce :
      (hops : ℕ) (found : List (SearchHit F)) (origins : List (Text × List Text))
      → expand_all f store hops hits ≡ ok (found, origins)
      → (k : ChunkKey) → IsNewOnce hits found k
  unfolding expand_all IsFreshIn
  expand_all-IsNewOnce hops found origins h k =
      let (rows, _, h) =
        >>=-eq-ok
          (fetch (lit "expand") (store.mentions (unique_documents (map (λ h. h.document_id) hits))))
          _ h in
      let (x, run, h) =
        >>=-eq-ok
          (expand_hits f store hops 0 hits (record {
            expanded = [];
            origin_entities = [];
            seen_chunks = map key_of hits;
            by_hit = bucket_rows (map key_of hits) rows [];
          }))
          _ h in
      subst (λ n. (n ≡ 0) ⊎ ((count_chunk k hits ≡ 0) × (n ≡ 1)))
        (sym (count_chunk-sort_by (by_score f store) k x.expanded)
          ∙ ap (λ r. count_chunk k r.0) (ok-injective h))
        ((expand_hits-IsFresh hops 0 hits _ x (start-IsFresh hits) run).new_once k)

-- If the expansion of hits succeeds, each chunk is found at most once, and a chunk that is found is
-- none of the hits.
pub expand_search_hits-IsNewOnce :
    {F : Type 0} (f : Float F) (store : ExpandStore) (hits : List (SearchHit F)) (max_expand : ℕ)
    (found : List (SearchHit F)) (origins : List (Text × List Text)) (k : ChunkKey)
    → expand_search_hits f store hits max_expand ≡ ok (found, origins)
    → IsNewOnce hits found k
unfolding expand_search_hits count_chunk
expand_search_hits-IsNewOnce f store [] n found origins k h =
    inl (ap (λ r. count_chunk k r.0) (sym (ok-injective h)))
expand_search_hits-IsNewOnce f store (hit ∷ hits) zero found origins k h =
    inl (ap (λ r. count_chunk k r.0) (sym (ok-injective h)))
expand_search_hits-IsNewOnce f store (hit ∷ hits) (suc hops) found origins k h =
    expand_all-IsNewOnce f store (hit ∷ hits) hops found origins h k

-- ===== src/Graph/Expand/Count.antt =====
-- How often a chunk is among the hits of `expand_search_hits` of crates/skb-core/src/graph.rs.
use surreal_knowledge_base.Base.{
  ℕ, ◌+◌, ◌==◌, ==_iff, ◌≡◌, refl, ap, ◌∙◌, inl, inr, text_eq, text_eq_iff, Bool, true, ◌&&◌,
  Bool-cases, List, [], ◌∷◌, ◌++◌, if◌then◌else◌, arith,
}
use surreal_knowledge_base.Base.Sort.{insert_sorted, sort_by}
use surreal_knowledge_base.Search.Hits.{SearchHit}
use surreal_knowledge_base.Graph.Expand.Buckets.{ChunkKey}

-- The same document and the same number.
abbrev pub at_place : ChunkKey → ChunkKey → Bool
at_place k j = text_eq k.0 j.0 && k.1 == j.1

pub at_place-true : (j k : ChunkKey) → at_place j k ≡ true → j ≡ k
at_place-true (d, i) (e, j) h = ground (arith, text_eq_iff d e, ==_iff i j)

module _ {F : Type 0} where
  abbrev pub key_of : SearchHit F → ChunkKey
  key_of h = (h.document_id, h.chunk_idx)

  -- How many of the hits are one chunk.
  unfoldable pub count_chunk : ChunkKey → List (SearchHit F) → ℕ
  count_chunk k [] = 0
  count_chunk k (h ∷ hs) =
      let rest = count_chunk k hs in if at_place k (key_of h) then rest + 1 else rest

  pub count_chunk-snoc :
      (k : ChunkKey) (xs : List (SearchHit F)) (h : SearchHit F)
      → count_chunk k (xs ++ (h ∷ []))
        ≡ (if at_place k (key_of h) then count_chunk k xs + 1 else count_chunk k xs)
  unfolding count_chunk
  count_chunk-snoc k [] h = ground arith
  count_chunk-snoc k (x ∷ xs) h = ground (arith, count_chunk-snoc k xs h)

  count_chunk-insert_sorted :
      (le : SearchHit F → SearchHit F → Bool) (k : ChunkKey) (h : SearchHit F)
      (xs : List (SearchHit F))
      → count_chunk k (insert_sorted le h xs) ≡ count_chunk k (h ∷ xs)
  unfolding count_chunk insert_sorted
  count_chunk-insert_sorted le k h [] = refl
  count_chunk-insert_sorted le k h (x ∷ xs) = elim (Bool-cases (le h x)) [
    | inl e ↦ rw e refl
    | inr e ↦ rw e (swap _ (count_chunk-insert_sorted le k h xs))
  ]
    where
      swap :
          (n : ℕ)
          → n ≡ (if at_place k (key_of h) then count_chunk k xs + 1 else count_chunk k xs)
          → (if at_place k (key_of x) then n + 1 else n) ≡ (
              if at_place k (key_of h)
              then (if at_place k (key_of x) then count_chunk k xs + 1 else count_chunk k xs) + 1
              else if at_place k (key_of x)
              then count_chunk k xs + 1
              else count_chunk k xs)
      swap n e = ground (arith, e)

  pub count_chunk-sort_by :
      (le : SearchHit F → SearchHit F → Bool) (k : ChunkKey) (xs : List (SearchHit F))
      → count_chunk k (sort_by le xs) ≡ count_chunk k xs
  unfolding count_chunk sort_by
  count_chunk-sort_by le k [] = refl
  count_chunk-sort_by le k (x ∷ xs) =
      count_chunk-insert_sorted le k x (sort_by le xs)
      ∙ ap (λ n. if at_place k (key_of x) then n + 1 else n) (count_chunk-sort_by le k xs)

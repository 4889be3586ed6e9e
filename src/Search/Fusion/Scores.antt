-- ===== src/Search/Fusion/Scores.antt =====
-- The score that the fusion (crates/skb-core/src/search.rs) gives a chunk, row by row.
use surreal_knowledge_base.Base.{
  ℕ, suc, ◌≡◌, refl, ap, ◌∙◌, Text, text_eq, text_eq_iff, Option, none, some, List, [], ◌∷◌, Bool,
  true, false, if◌then◌else◌, arith, Option-cases, inl, inr, sym,
}
use surreal_knowledge_base.Base.Float.{Float}
use surreal_knowledge_base.Base.Map.{get, get-put}
use surreal_knowledge_base.Search.Hits.{Row, text_or_empty}
use surreal_knowledge_base.Search.Fusion.{
  RankedHit, rrf, ranked, or_insert, add_vector_rows, add_keyword, add_keyword_rows, fuse,
}

-- A chunk's score so far, and whether the keyword leg found it.
abbrev pub Standing : Type 0 → Type 0
Standing F = Option (F × Bool)

abbrev pub standing_of : {F : Type 0} → Option (RankedHit F) → Standing F
standing_of none = none
standing_of (some hit) = some (hit.score, hit.keyword_matched)

abbrev or_else : {A : Type 0} → Option A → Option A → Option A
or_else none o = o
or_else (some a) o = some a

module _ {F : Type 0} (f : Float F) (rrf_k : ℕ) (id : Text) where
  -- What the vector rows give a chunk: the reciprocal rank of its first row.
  unfoldable pub vector_standing : ℕ → List (Row F) → Standing F
  vector_standing rank [] = none
  vector_standing rank (row ∷ rows) =
      let rest = vector_standing (suc rank) rows in
      if text_eq (text_or_empty row.chunk_id) id then some (rrf f rrf_k rank, false) else rest

  abbrev pub bump : F → Standing F → Standing F
  bump s none = some (s, true)
  bump s (some (t, _)) = some (f.add t s, true)

  -- What the keyword rows add: the reciprocal rank of each of its rows.
  unfoldable pub keyword_standing : ℕ → List (Row F) → Standing F → Standing F
  keyword_standing rank [] st = st
  keyword_standing rank (row ∷ rows) st =
      keyword_standing (suc rank) rows
        (if text_eq (text_or_empty row.chunk_id) id then bump (rrf f rrf_k rank) st else st)

  same_key :
      (key : Text) (scores : List (Text × RankedHit F))
      → text_eq key id ≡ true
      → get id scores ≡ get key scores
  same_key key scores e = ap (λ k. get k scores) (sym ((text_eq_iff key id).0 e))

  or_insert_standing :
      (key : Text) (row : Row F) (rank : ℕ) (scores : List (Text × RankedHit F))
      → standing_of (
          get id (
            or_insert f rrf_k key
              (ranked f rrf_k row (rrf f rrf_k rank) false)
              scores
              (get key scores)))
        ≡ or_else
            (standing_of (get id scores))
            (if text_eq key id then some (rrf f rrf_k rank, false) else none)
  unfolding or_insert ranked
  or_insert_standing key row rank scores = elim (Option-cases (get key scores)) [
    | inl e ↦ rw e (rw get-put (ground (arith, same_key key scores)))
    | inr (h, e) ↦ rw e (ground (arith, same_key key scores))
  ]

  add_keyword_standing :
      (key : Text) (row : Row F) (rank : ℕ) (scores : List (Text × RankedHit F))
      → standing_of (get id (add_keyword f rrf_k key row rank scores (get key scores))) ≡ (
          if text_eq key id
          then bump (rrf f rrf_k rank) (standing_of (get id scores))
          else standing_of (get id scores))
  unfolding add_keyword ranked
  add_keyword_standing key row rank scores = elim (Option-cases (get key scores)) [
    | inl e ↦ rw e (rw get-put (ground (arith, same_key key scores)))
    | inr (h, e) ↦ rw e (rw get-put (ground (arith, same_key key scores)))
  ]

  or_else-if :
      (b : Bool) (o : Standing F) (x : F × Bool) (rest : Standing F)
      → or_else (or_else o (if b then some x else none)) rest
        ≡ or_else o (if b then some x else rest)
  or_else-if true none x rest = refl
  or_else-if false none x rest = refl
  or_else-if b (some y) x rest = refl

  add_vector_rows_standing :
      (rows : List (Row F)) (rank : ℕ) (scores : List (Text × RankedHit F))
      → standing_of (get id (add_vector_rows f rrf_k rank rows scores))
        ≡ or_else (standing_of (get id scores)) (vector_standing rank rows)
  unfolding add_vector_rows vector_standing
  add_vector_rows_standing [] rank scores = ground arith
  add_vector_rows_standing (row ∷ rows) rank scores =
      add_vector_rows_standing rows (suc rank) _
      ∙ ap (λ o. or_else o (vector_standing (suc rank) rows))
          (or_insert_standing (text_or_empty row.chunk_id) row rank scores)
      ∙ or_else-if (text_eq (text_or_empty row.chunk_id) id) (standing_of (get id scores)) _ _

  add_keyword_rows_standing :
      (rows : List (Row F)) (rank : ℕ) (scores : List (Text × RankedHit F))
      → standing_of (get id (add_keyword_rows f rrf_k rank rows scores))
        ≡ keyword_standing rank rows (standing_of (get id scores))
  unfolding add_keyword_rows keyword_standing
  add_keyword_rows_standing [] rank scores = refl
  add_keyword_rows_standing (row ∷ rows) rank scores =
      add_keyword_rows_standing rows (suc rank) _
      ∙ ap (keyword_standing (suc rank) rows)
          (add_keyword_standing (text_or_empty row.chunk_id) row rank scores)

-- In the fused map a chunk is present exactly if a row of either leg has its id. Its score is the
-- reciprocal rank of its first vector row, if it has one, plus that of each of its keyword rows,
-- and it counts as matched by the keyword leg exactly if it has a keyword row.
pub fuse_standing :
    {F : Type 0} (f : Float F) (rrf_k : ℕ) (id : Text) (vrows krows : List (Row F))
    → standing_of (get id (fuse f rrf_k vrows krows))
      ≡ keyword_standing f rrf_k id 0 krows (vector_standing f rrf_k id 0 vrows)
unfolding fuse get
fuse_standing f rrf_k id vrows krows =
    add_keyword_rows_standing f rrf_k id krows 0 _
    ∙ ap (keyword_standing f rrf_k id 0 krows) (add_vector_rows_standing f rrf_k id vrows 0 [])

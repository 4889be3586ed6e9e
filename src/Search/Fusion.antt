-- ===== src/Search/Fusion.antt =====
-- The reciprocal rank fusion of `hybrid_search` in crates/skb-core/src/search.rs: the hits of the
-- vector leg and of the keyword leg in one map by chunk id, sorted and cut to `top_k`.
pub mod Scores
pub mod Ranking
use surreal_knowledge_base.Base.{
  ℕ, zero, suc, ◌+◌, ◌≤◌, ◌≡◌, refl, ap, Text, text_eq, Option, none, some, List, [], ◌∷◌, map,
  Bool, true, false, ◌||◌, if◌then◌else◌, take, length, length-take-le, max, All, text_eq_iff,
  arith, Option-cases, ◌⊎◌, inl, inr, Bool-cases,
}
use mathlib.Core.Option
use surreal_knowledge_base.Base.Float.{Float, Order, less, equal, greater}
use surreal_knowledge_base.Base.Map.{get, put, get-put}
use surreal_knowledge_base.Base.Sort.{sort_by, text_le}
use surreal_knowledge_base.Search.Terms.{Unicode, present_terms}
use surreal_knowledge_base.Search.Hits.{Row, SearchHit, unwrap_or, text_or_empty}

pub record RankedHit (F : Type 0) : Type 0 where
  pub score : F
  pub content : Text
  pub idx : ℕ
  pub document : Text
  pub title : Option Text
  pub source : Option Text
  pub keyword_matched : Bool

module _ {F : Type 0} (f : Float F) (rrf_k : ℕ) where
  -- 1.0 / (rrf_k + (rank + 1.0)), with rrf_k at least 1
  unfoldable pub rrf : ℕ → F
  rrf rank = f.div (f.of_ℕ 1) (f.add (f.of_ℕ (max rrf_k 1)) (f.add (f.of_ℕ rank) (f.of_ℕ 1)))

  ranked : Row F → F → Bool → RankedHit F
  ranked row score matched = record {
    score = score;
    content = text_or_empty row.content;
    idx = unwrap_or 0 row.idx;
    document = text_or_empty row.document;
    title = row.title;
    source = row.source;
    keyword_matched = matched;
  }

  or_insert :
      Text
      → RankedHit F
      → List (Text × RankedHit F)
      → Option (RankedHit F)
      → List (Text × RankedHit F)
  or_insert id hit scores none = put id hit scores
  or_insert id hit scores (some _) = scores

  -- The loop over the vector rows: of rows with one id the first counts.
  unfoldable pub add_vector_rows :
      ℕ → List (Row F) → List (Text × RankedHit F) → List (Text × RankedHit F)
  unfolding or_insert ranked
  add_vector_rows rank [] scores = scores
  add_vector_rows rank (row ∷ rows) scores =
      let id = text_or_empty row.chunk_id in
      add_vector_rows (suc rank) rows
        (or_insert id (ranked row (rrf rank) false) scores (get id scores))

  add_keyword :
      Text
      → Row F
      → ℕ
      → List (Text × RankedHit F)
      → Option (RankedHit F)
      → List (Text × RankedHit F)
  add_keyword id row rank scores none = put id (ranked row (rrf rank) true) scores
  add_keyword id row rank scores (some hit) =
      put id (record hit { score = f.add hit.score (rrf rank); keyword_matched = true }) scores

  -- The loop over the keyword rows: a known id gains score.
  unfoldable pub add_keyword_rows :
      ℕ → List (Row F) → List (Text × RankedHit F) → List (Text × RankedHit F)
  unfolding add_keyword ranked
  add_keyword_rows rank [] scores = scores
  add_keyword_rows rank (row ∷ rows) scores =
      let id = text_or_empty row.chunk_id in
      add_keyword_rows (suc rank) rows (add_keyword id row rank scores (get id scores))

  -- The map after both loops.
  unfoldable pub fuse : List (Row F) → List (Row F) → List (Text × RankedHit F)
  unfolding add_vector_rows add_keyword_rows
  fuse vrows krows = add_keyword_rows 0 krows (add_vector_rows 0 vrows [])

-- The comparison of `sort_by`: higher scores first, then by id; `true` unless it says `Greater`.
by_id : Text → Text → Option Order → Bool
by_id a b (some less) = true
by_id a b (some greater) = false
by_id a b (some equal) = text_le a b
by_id a b none = text_le a b

module _ {F : Type 0} (f : Float F) where
  unfoldable pub key_le : Text × F → Text × F → Bool
  unfolding by_id
  key_le (a, s) (b, t) = by_id a b (f.partial_cmp t s)

  abbrev pub key : Text × RankedHit F → Text × F
  key (id, hit) = (id, hit.score)

  unfoldable pub entry_le : Text × RankedHit F → Text × RankedHit F → Bool
  entry_le a b = key_le (key a) (key b)

  fused_highlights : Unicode → List Text → Text → Bool → Option (List Text)
  fused_highlights u terms content true = some (present_terms u terms content)
  fused_highlights u terms content false = none

  unfoldable pub to_hit : Unicode → List Text → Text × RankedHit F → SearchHit F
  unfolding fused_highlights
  to_hit u terms (id, hit) = record {
    document_id = hit.document;
    chunk_idx = hit.idx;
    content = hit.content;
    score = hit.score;
    title = hit.title;
    source = hit.source;
    highlights = fused_highlights u terms hit.content hit.keyword_matched;
    matched_entities = none;
  }

  -- `into_iter`, `sort_by`, `truncate`
  unfoldable pub ranking : ℕ → List (Text × RankedHit F) → List (Text × RankedHit F)
  ranking top_k scores = take top_k (sort_by entry_le scores)

  -- The end of `hybrid_search`, from the rows of the two legs.
  unfoldable pub merge_rows :
      Unicode → ℕ → ℕ → List Text → List (Row F) → List (Row F) → List (SearchHit F)
  unfolding ranking
  merge_rows u rrf_k top_k terms vrows krows =
      map (to_hit u terms) (ranking top_k (fuse f rrf_k vrows krows))

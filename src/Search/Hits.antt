-- ===== src/Search/Hits.antt =====
-- Result rows and hits of crates/skb-core/src/search.rs. A row is a JSON object of the database,
-- given by what `as_str`, `as_u64` and `as_f64` return at the keys that the code reads; `F` is `f64`.
use surreal_knowledge_base.Base.{
  ℕ, Text, Option, none, some, List, [], ◌∷◌, ◌≡◌, refl, length, suc, ap,
}
use surreal_knowledge_base.Search.Terms.{Unicode, present_terms}

pub record Row (F : Type 0) : Type 0 where
  pub chunk_id : Option Text
  pub content : Option Text
  pub idx : Option ℕ
  pub document : Option Text
  pub title : Option Text
  pub source : Option Text
  pub score : Option F

pub record SearchHit (F : Type 0) : Type 0 where
  pub document_id : Text
  pub chunk_idx : ℕ
  pub content : Text
  pub score : F
  pub title : Option Text
  pub source : Option Text
  pub highlights : Option (List Text)
  pub matched_entities : Option (List Text)

-- `Option::unwrap_or`
abbrev pub unwrap_or {ℓ} : {A : Type ℓ} → A → Option A → A
unwrap_or d none = d
unwrap_or d (some a) = a

abbrev pub text_or_empty : Option Text → Text
text_or_empty o = unwrap_or [] o

hit_highlights : Unicode → Option (List Text) → Text → Option (List Text)
hit_highlights u none content = none
hit_highlights u (some terms) content = some (present_terms u terms content)

module _ {F : Type 0} (u : Unicode) (zero_score : F) where
  unfoldable pub row_to_hit : Option (List Text) → Row F → SearchHit F
  unfolding hit_highlights
  row_to_hit highlights row =
      let content = text_or_empty row.content in
      record {
        document_id = text_or_empty row.document;
        chunk_idx = unwrap_or 0 row.idx;
        content = content;
        score = unwrap_or zero_score row.score;
        title = row.title;
        source = row.source;
        highlights = hit_highlights u highlights content;
        matched_entities = none;
      }

  -- `rows_to_hits`; its `Result` is never an error.
  unfoldable pub rows_to_hits : List (Row F) → Option (List Text) → List (SearchHit F)
  unfolding row_to_hit
  rows_to_hits [] highlights = []
  rows_to_hits (row ∷ rows) highlights = row_to_hit highlights row ∷ rows_to_hits rows highlights

  pub length-rows_to_hits :
      (rows : List (Row F)) (highlights : Option (List Text))
      → length (rows_to_hits rows highlights) ≡ length rows
  unfolding rows_to_hits
  length-rows_to_hits [] highlights = refl
  length-rows_to_hits (row ∷ rows) highlights = ap suc (length-rows_to_hits rows highlights)

-- ===== src/Search/Terms.antt =====
-- `match_terms` of crates/skb-core/src/search.rs. The Unicode tables behind
-- `char::is_alphanumeric` and `str::to_lowercase` are the standard library's, and parameters here.
use surreal_knowledge_base.Base.{
  ℕ, ◌≡◌, Text, split, List, [], ◌∷◌, map, leb, ◌==◌, Bool, true, not, ◌&&◌, arith, length,
  filter_by, All, contains,
}
use surreal_knowledge_base.Base.Sort.{
  sort_by, sort_by-IsSorted, text_le, text_le_total, dedup, IsStrict, dedup-IsStrict,
}

pub record Unicode : Type 0 where
  pub is_alphanumeric : ℕ → Bool
  pub to_lowercase : Text → Text

-- What ends a term.
abbrev pub is_break : Unicode → ℕ → Bool
is_break u c = not (u.is_alphanumeric c) && not (c == b'-') && not (c == b'_')

-- The terms of a query before sorting.
unfoldable pub query_terms : Unicode → Text → List Text
query_terms u query =
    map u.to_lowercase (filter_by (λ t. leb 2 (length t)) (split (is_break u) query))

-- `match_terms`
unfoldable pub match_terms : Unicode → Text → List Text
unfolding query_terms
match_terms u query = dedup (sort_by text_le (query_terms u query))

-- The terms that are present in a chunk's body.
unfoldable pub present_terms : Unicode → List Text → Text → List Text
present_terms u terms content = filter_by (λ t. contains t (u.to_lowercase content)) terms

-- The highlight terms of a query rise strictly, so each is listed once.
pub match_terms-IsStrict : (u : Unicode) (query : Text) → IsStrict (match_terms u query)
unfolding match_terms
match_terms-IsStrict u query = dedup-IsStrict _ (sort_by-IsSorted text_le text_le_total _)

-- Only terms of the chunk's own text are highlighted in it.
pub present_terms-All :
    (u : Unicode) (terms : List Text) (content : Text)
    → All (λ t. contains t (u.to_lowercase content) ≡ true) (present_terms u terms content)
unfolding present_terms
present_terms-All u [] content = tt
present_terms-All u (t ∷ ts) content = ground (arith, present_terms-All u ts content)

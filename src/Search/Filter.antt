-- ===== src/Search/Filter.antt =====
-- `apply_filter` and `validate_filter_fields` of crates/skb-core/src/search.rs. The query for the
-- documents' fields is a parameter: for the ids and fields asked, the rows of the matching documents.
pub mod Kept
use surreal_knowledge_base.Base.{
  Text, text_eq, lit, Option, none, some, List, [], ◌∷◌, ◌++◌, map, Bool, false, if◌then◌else◌,
  filter_by, any_by, all_by,
}
use surreal_knowledge_base.Error.{ErrorCode, SkbError, skb_error, Outcome, ok, ◌>>=◌, ◌>>◌, map_err}
use surreal_knowledge_base.Config.{invalid}
use surreal_knowledge_base.Base.Map.{get, put}
use surreal_knowledge_base.Base.Sort.{sort_by, text_le, dedup}
use surreal_knowledge_base.Search.Hits.{SearchHit}

-- A document row: its `id`, and what `as_str` returns at a field.
pub record DocRow : Type 0 where
  pub id : Option Text
  pub field : Text → Option Text

-- A query and `take(0)` of its result: the two places at which the database can fail.
abbrev pub Query : Type 0 → Type 0
Query A = Outcome Text (Outcome Text A)

abbrev pub db_error : Text → Text → SkbError
db_error label m = skb_error ErrorCode.db (label ++ lit ": " ++ m)

abbrev pub fetch : {A : Type 0} → Text → Query A → Outcome SkbError A
fetch label q = do r ← map_err (db_error label) q; map_err (db_error (label ++ lit " take")) r

unfoldable pub filter_fields : List Text
filter_fields = lit "title" ∷ lit "source" ∷ lit "source_type" ∷ lit "mime" ∷ lit "sha256" ∷ []

-- `validate_filter_fields`
unfoldable pub validate_filter_fields : List (Text × Text) → Outcome SkbError (Unit {0})
validate_filter_fields [] = ok tt
validate_filter_fields ((field, _) ∷ filter) =
    let rest = validate_filter_fields filter in
    if any_by (λ allowed. text_eq allowed field) filter_fields
    then rest
    else invalid (lit "unsupported search filter field: " ++ field)

-- Later rows with the same id replace earlier ones, as in a collected hash map.
put_row : DocRow → List (Text × DocRow) → Option Text → List (Text × DocRow)
put_row row m none = m
put_row row m (some id) = put id row m

unfoldable pub rows_by_id : List DocRow → List (Text × DocRow) → List (Text × DocRow)
unfolding put_row
rows_by_id [] m = m
rows_by_id (row ∷ rows) m = rows_by_id rows (put_row row m row.id)

equals : Option Text → Text → Bool
equals none v = false
equals (some w) v = text_eq w v

-- Whether a document has the value of every filter entry.
unfoldable pub row_matches : List (Text × Text) → Option DocRow → Bool
unfolding equals
row_matches filter none = false
row_matches filter (some row) = all_by (λ (k, v). equals (row.field k) v) filter

unfoldable pub keep_hits :
    {F : Type 0}
    → List (Text × DocRow)
    → List (Text × Text)
    → List (SearchHit F)
    → List (SearchHit F)
unfolding row_matches
keep_hits rows filter hits = filter_by (λ hit. row_matches filter (get hit.document_id rows)) hits

hit_ids : {F : Type 0} → List (SearchHit F) → List Text
hit_ids hits = dedup (sort_by text_le (map (λ h. h.document_id) hits))

abbrev keys : List (Text × Text) → List Text
keys = map (λ (k, _). k)

filter_found :
    {F : Type 0}
    → (List Text → List Text → Query (List DocRow))
    → List (SearchHit F)
    → List (Text × Text)
    → Outcome SkbError (List (SearchHit F))
filter_found documents [] filter = ok []
filter_found documents (hit ∷ hits) filter = do
  rows ← fetch (lit "filter") (documents (hit_ids (hit ∷ hits)) (keys filter))
  ok (keep_hits (rows_by_id rows []) filter (hit ∷ hits))

-- `apply_filter`
unfoldable pub apply_filter :
    {F : Type 0}
    → (List Text → List Text → Query (List DocRow))
    → List (SearchHit F)
    → List (Text × Text)
    → Outcome SkbError (List (SearchHit F))
unfolding filter_found hit_ids
apply_filter documents hits [] = ok hits
apply_filter documents hits (entry ∷ filter) = do
  validate_filter_fields (entry ∷ filter)
  filter_found documents hits (entry ∷ filter)

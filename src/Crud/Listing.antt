-- ===== src/Crud/Listing.antt =====
-- `list_documents` of crates/skb-core/src/crud.rs. The queries are the database's.
use surreal_knowledge_base.Base.{ℕ, Text, lit, show, Option, none, some, List, [], ◌∷◌, ◌++◌, map}
use surreal_knowledge_base.Base.Map.{get, put}
use surreal_knowledge_base.Error.{SkbError, Outcome, ok, ◌>>=◌, ◌>>◌}
use surreal_knowledge_base.Search.Filter.{Query, fetch}
use surreal_knowledge_base.Search.Hits.{unwrap_or, text_or_empty}
use surreal_knowledge_base.Graph.Ids.{RecordId}
use surreal_knowledge_base.Crud.Requests.{
  OrderBy, created_desc, created_asc, title_asc, title_desc, to_surql, ListQuery, validate_list,
  document_record_id,
}

pub record DocumentSummary : Type 0 where
  pub id : Text
  pub title : Text
  pub source : Text
  pub sha256 : Text
  pub chunk_count : ℕ
  pub created_at : Text

-- A row of the listing, where `as_str` finds a text or not.
pub record SummaryRow : Type 0 where
  pub id : Option Text
  pub title : Option Text
  pub source : Option Text
  pub sha256 : Option Text
  pub created_at : Option Text

-- A row of the counts.
pub record CountRow : Type 0 where
  pub document : Option Text
  pub c : Option ℕ

-- What `format!` puts into the query, with the values that are bound to it.
pub record Page : Type 0 where
  pub cursor_clause : Text
  pub order_by : Text
  pub limit : ℕ
  pub offset : ℕ
  pub after : Option (Text × Text)

pub record Listing (S : Type 0) : Type 0 where
  pub select_page : Page → S → Query (List SummaryRow)
  pub select_counts : List RecordId → S → Query (List CountRow)

unfoldable pub order_text : Option OrderBy → Text
unfolding to_surql
order_text (some o) = to_surql o ++ lit ", id"
order_text none = lit "created_at DESC, id"

comparison : Option OrderBy → Text
comparison (some created_desc) = lit "<"
comparison (some created_asc) = lit ">"
comparison (some title_asc) = lit ">"
comparison (some title_desc) = lit ">"
comparison none = lit "<"

unfoldable pub cursor_clause : Option OrderBy → Option (Text × Text) → Text
unfolding comparison
cursor_clause order none = []
cursor_clause order (some _) =
    lit " AND (created_at, meta::id(id)) " ++ comparison order ++ lit " ($after_created, $after_id)"

unfoldable pub page_of : ListQuery → Page
unfolding order_text cursor_clause
page_of q = record {
  cursor_clause = cursor_clause q.order q.after;
  order_by = order_text q.order;
  limit = unwrap_or 50 q.limit;
  offset = unwrap_or 0 q.offset;
  after = q.after;
}

-- The text of the query.
unfoldable pub page_sql : Page → Text
page_sql p =
    lit
      "SELECT string::concat('document:', meta::id(id)) AS id, title, source, sha256, created_at FROM document WHERE true"
    ++ p.cursor_clause
    ++ lit " ORDER BY "
    ++ p.order_by
    ++ lit " LIMIT "
    ++ show p.limit
    ++ lit " START "
    ++ show p.offset

id_or_skip : Outcome SkbError RecordId → List RecordId → List RecordId
id_or_skip (ok id) ids = id ∷ ids
id_or_skip _ ids = ids

unfoldable pub page_ids : List SummaryRow → List RecordId
unfolding id_or_skip document_record_id
page_ids [] = []
page_ids (row ∷ rows) = elim row.id [
  | none ↦ page_ids rows
  | some s ↦ id_or_skip (document_record_id s) (page_ids rows)
]

put_count : Option Text → Option ℕ → List (Text × ℕ) → List (Text × ℕ)
unfolding put
put_count (some document) (some c) m = put document c m
put_count _ _ m = m

unfoldable pub counts_of : List CountRow → List (Text × ℕ) → List (Text × ℕ)
unfolding put_count
counts_of [] m = m
counts_of (row ∷ rows) m = counts_of rows (put_count row.document row.c m)

unfoldable pub summary_of : List (Text × ℕ) → SummaryRow → DocumentSummary
unfolding get
summary_of counts row = record {
  id = text_or_empty row.id;
  title = text_or_empty row.title;
  source = text_or_empty row.source;
  sha256 = text_or_empty row.sha256;
  chunk_count = unwrap_or 0 (get (text_or_empty row.id) counts);
  created_at = text_or_empty row.created_at;
}

module _ {S : Type 0} (db : Listing S) (s : S) where
  unfoldable pub summaries : List SummaryRow → Outcome SkbError (List DocumentSummary)
  unfolding page_ids counts_of summary_of
  summaries [] = ok []
  summaries (row ∷ rows) = do
    counts ← fetch (lit "list chunks") (db.select_counts (page_ids (row ∷ rows)) s)
    ok (map (summary_of (counts_of counts [])) (row ∷ rows))

  -- `list_documents`
  unfoldable pub list_documents : ListQuery → Outcome SkbError (List DocumentSummary)
  unfolding validate_list page_of summaries
  list_documents q = do
    validate_list q
    rows ← fetch (lit "list") (db.select_page (page_of q) s)
    summaries rows

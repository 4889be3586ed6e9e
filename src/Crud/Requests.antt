-- ===== src/Crud/Requests.antt =====
-- The requests of crates/skb-core/src/crud.rs and their checks, and the record id of a document.
use surreal_knowledge_base.Base.{
  ℕ, Text, lit, show, text_eq, trim, is_empty, split_once, any_by, Bool, true, false, not, ◌&&◌,
  ◌==◌, ltb, Option, none, some, ◌++◌, if◌then◌else◌,
}
use surreal_knowledge_base.Error.{ErrorCode, SkbError, skb_error, Outcome, ok, ◌>>=◌, ◌>>◌, ok_or}
use surreal_knowledge_base.Config.{invalid, reject_if}
use surreal_knowledge_base.Graph.Ids.{RecordId}

pub data OrderBy : Type 0 where
  created_desc created_asc title_asc title_desc : OrderBy

-- `OrderBy::from_str`
unfoldable pub order_from_str : Text → Outcome SkbError OrderBy
order_from_str s =
    if text_eq s (lit "created_desc")
    then ok created_desc
    else if text_eq s (lit "created_asc")
    then ok created_asc
    else if text_eq s (lit "title_asc")
    then ok title_asc
    else if text_eq s (lit "title_desc")
    then ok title_desc
    else invalid (lit "order must be created_desc, created_asc, title_asc, or title_desc")

unfoldable pub to_surql : OrderBy → Text
to_surql created_desc = lit "created_at DESC"
to_surql created_asc = lit "created_at ASC"
to_surql title_asc = lit "title ASC"
to_surql title_desc = lit "title DESC"

abbrev pub max_list_limit : ℕ
max_list_limit = 10000

abbrev pub max_list_offset : ℕ
max_list_offset = 1000000

pub record ListQuery : Type 0 where
  pub limit : Option ℕ
  pub offset : Option ℕ
  pub order : Option OrderBy
  pub after : Option (Text × Text)

-- `ListQuery::default`
unfoldable pub default_query : ListQuery
default_query = record { limit = none; offset = none; order = some created_desc; after = none }

abbrev is_some {ℓ} : {A : Type ℓ} → Option A → Bool
is_some none = false
is_some (some _) = true

abbrev is_title_order : Option OrderBy → Bool
is_title_order (some title_asc) = true
is_title_order (some title_desc) = true
is_title_order _ = false

check_limit : Option ℕ → Outcome SkbError (Unit {0})
check_limit none = ok tt
check_limit (some limit) = do
  reject_if (limit == 0) (lit "limit must be at least 1")
  reject_if (ltb max_list_limit limit) (lit "limit must be at most " ++ show max_list_limit)

check_offset : Option ℕ → Outcome SkbError (Unit {0})
check_offset none = ok tt
check_offset (some offset) =
    reject_if (ltb max_list_offset offset) (lit "offset must be at most " ++ show max_list_offset)

-- `ListQuery::validate`
unfoldable pub validate_list : ListQuery → Outcome SkbError (Unit {0})
unfolding check_limit check_offset
validate_list q = do
  check_limit q.limit
  check_offset q.offset
  reject_if (is_some q.after && is_some q.offset)
      (lit "after (keyset cursor) and offset cannot be combined")
  reject_if (is_some q.after && is_title_order q.order)
      (lit "after (keyset cursor) is only supported with created_at ordering")

-- The characters that a key may not have.
unfoldable pub is_unsafe : ℕ → Bool
is_unsafe c = any_by (λ d. c == d) (lit "'\";`\\\n\r")

-- `validate_document_id`
unfoldable pub validate_document_id : Text → Outcome SkbError (Text × Text)
unfolding is_unsafe
validate_document_id id = do
  reject_if (is_empty (trim id)) (lit "id must not be empty")
  (table, key) ←
      ok_or
        (skb_error ErrorCode.validation
          (lit "id must be a document record id (document:<key>), got '" ++ id ++ lit "'"))
        (split_once b':' id)
  reject_if (not (text_eq table (lit "document")))
      (lit "id must reference the document table, got '" ++ table ++ lit "'")
  reject_if (is_empty key) (lit "document record key must not be empty: '" ++ id ++ lit "'")
  reject_if (any_by is_unsafe key) (lit "invalid document id: '" ++ id ++ lit "'")
  ok (table, key)

-- `document_record_id`
unfoldable pub document_record_id : Text → Outcome SkbError RecordId
unfolding validate_document_id
document_record_id id = do
  (table, key) ← validate_document_id id
  ok (record { table = table; key = key })

pub record GetDocumentRequest : Type 0 where
  pub id : Text
  pub include_chunks : Option Bool

pub record DeleteDocumentRequest : Type 0 where
  pub id : Text

-- `validate` of the two requests.
unfoldable pub validate_id : Text → Outcome SkbError (Unit {0})
unfolding validate_document_id
validate_id id = do _ ← validate_document_id id; ok tt

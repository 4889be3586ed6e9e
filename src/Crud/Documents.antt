-- ===== src/Crud/Documents.antt =====
-- `get_document` and `delete_document` of crates/skb-core/src/crud.rs. The queries and the statements
-- are the database's.
use surreal_knowledge_base.Base.{
  ℕ, Text, lit, Bool, true, false, Option, none, some, List, [], ◌∷◌, ◌++◌, map,
}
use surreal_knowledge_base.Error.{
  ErrorCode, SkbError, skb_error, Outcome, ok, err, ◌>>=◌, ◌>>◌, map_err,
}
use surreal_knowledge_base.Error.Action.{Action, transaction}
use surreal_knowledge_base.Search.Filter.{Query, fetch, db_error}
use surreal_knowledge_base.Search.Hits.{unwrap_or, text_or_empty}
use surreal_knowledge_base.Graph.Ids.{RecordId}
use surreal_knowledge_base.Database.{statement}
use surreal_knowledge_base.Ingest.Upload.{first_count}
use surreal_knowledge_base.Crud.Requests.{
  GetDocumentRequest, DeleteDocumentRequest, validate_id, document_record_id,
}

pub record ChunkInfo : Type 0 where
  pub idx : ℕ
  pub content : Text
  pub token_count : ℕ
  pub heading : Option Text

pub record DocumentDetail : Type 0 where
  pub id : Text
  pub title : Text
  pub source : Text
  pub source_type : Text
  pub sha256 : Text
  pub content : Text
  pub chunks : Option (List ChunkInfo)
  pub created_at : Text

pub record DeleteResult : Type 0 where
  pub document_id : Text
  pub chunks_deleted : ℕ

-- A row of a document, and one of a chunk: what `as_str` and `as_u64` find.
pub record DetailRow : Type 0 where
  pub title : Option Text
  pub source : Option Text
  pub source_type : Option Text
  pub sha256 : Option Text
  pub content : Option Text
  pub created_at : Option Text

pub record ChunkRow : Type 0 where
  pub idx : Option ℕ
  pub content : Option Text
  pub token_count : Option ℕ
  pub heading : Option Text

pub record Documents (S : Type 0) : Type 0 where
  pub select_document : RecordId → S → Query (List DetailRow)
  pub select_chunks : RecordId → S → Query (List ChunkRow)
  pub begin : S → Outcome Text (Unit {0})
  -- `SELECT id FROM $id LIMIT 1`
  pub lookup : RecordId → S → Query (List (Unit {0}))
  pub count_chunks : RecordId → S → Query (List (Option ℕ))
  -- The mentions of the document's chunks, its chunks, and the document.
  pub delete : RecordId → S → Outcome Text (Outcome Text S)
  pub commit : S → Outcome Text (Unit {0})

unfoldable pub chunk_info : ChunkRow → ChunkInfo
chunk_info c = record {
  idx = unwrap_or 0 c.idx;
  content = text_or_empty c.content;
  token_count = unwrap_or 0 c.token_count;
  heading = c.heading;
}

-- The first row, or the error that there is none.
unfoldable pub first_or_not_found {ℓ} : {A : Type ℓ} → Text → List A → Outcome SkbError A
first_or_not_found id [] = err (skb_error ErrorCode.document_not_found (lit "not found: " ++ id))
first_or_not_found id (row ∷ _) = ok row

module _ {S : Type 0} (db : Documents S) where
  chunks_if : Bool → RecordId → S → Outcome SkbError (Option (List ChunkInfo))
  unfolding chunk_info
  chunks_if false id s = ok none
  chunks_if true id s = do
    rows ← fetch (lit "get chunks") (db.select_chunks id s)
    ok (some (map chunk_info rows))

  -- `get_document`
  unfoldable pub get_document : GetDocumentRequest → S → Outcome SkbError DocumentDetail
  unfolding validate_id document_record_id first_or_not_found chunks_if
  get_document req s = do
    validate_id req.id
    id ← document_record_id req.id
    rows ← fetch (lit "get") (db.select_document id s)
    row ← first_or_not_found req.id rows
    chunks ← chunks_if (unwrap_or false req.include_chunks) id s
    ok (record {
      id = req.id;
      title = text_or_empty row.title;
      source = text_or_empty row.source;
      source_type = text_or_empty row.source_type;
      sha256 = text_or_empty row.sha256;
      content = text_or_empty row.content;
      chunks = chunks;
      created_at = text_or_empty row.created_at;
    })

  -- What stands between the begin and the end of the transaction.
  unfoldable pub delete_steps : Text → RecordId → S → Outcome SkbError (DeleteResult × S)
  unfolding first_or_not_found
  delete_steps id record_id s = do
    map_err (db_error (lit "delete begin")) (db.begin s)
    found ← fetch (lit "delete lookup") (db.lookup record_id s)
    _ ← first_or_not_found id found
    counts ← fetch (lit "delete count") (db.count_chunks record_id s)
    t ← statement (lit "delete") (db.delete record_id s)
    map_err (db_error (lit "delete commit")) (db.commit t)
    ok (record { document_id = id; chunks_deleted = first_count counts }, t)

  -- `delete_document`: an error, or a panic, leaves the store as it was.
  unfoldable pub delete_document : DeleteDocumentRequest → Action S DeleteResult
  unfolding validate_id document_record_id delete_steps
  delete_document req = transaction (λ s. do
    validate_id req.id
    record_id ← document_record_id req.id
    delete_steps req.id record_id s)

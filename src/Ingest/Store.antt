-- ===== src/Ingest/Store.antt =====
-- `store_and_index` of crates/skb-core/src/ingest.rs: the writes of one document in a transaction. The
-- statements are the database's; what they do to the tables is stated in Ingest/Store/Tables.antt.
-- `F` stands for an embedding and `G` for the weight of a link.
pub mod Tables
pub mod Steps
pub mod Written
pub mod Consistent
use surreal_knowledge_base.Base.{
  ℕ, ◌+◌, Text, lit, show, strip_prefix, Bool, true, false, Option, none, List, [], ◌∷◌, ◌++◌,
}
use surreal_knowledge_base.Base.Sort.{sort_by, text_le, dedup}
use surreal_knowledge_base.Error.{
  ErrorCode, SkbError, skb_error, Outcome, ok, ◌>>=◌, map_err, ok_or,
}
use surreal_knowledge_base.Search.Filter.{db_error}
use surreal_knowledge_base.Tokenize.Chunk.{Chunk}
use surreal_knowledge_base.Graph.Ids.{RecordId}
use surreal_knowledge_base.Graph.Extract.{Patterns}
use surreal_knowledge_base.Graph.Index.{Run, index_chunk_entities_in_transaction}
use surreal_knowledge_base.Graph.Sections.{Exec, link_section_hierarchy}
use surreal_knowledge_base.Ingest.Source.{DocumentData}

-- What is bound to the statement that creates a chunk.
pub record NewChunk (F : Type 0) : Type 0 where
  pub document : RecordId
  pub idx : ℕ
  pub content : Text
  pub token_count : ℕ
  pub embedding : F
  pub heading : Option Text

-- The first row of a `CREATE … RETURN`, where `as_str` has found an id or not.
abbrev pub Rows : Type 0
Rows = List (Option Text)

-- A statement can fail when it is sent, at `check()`, and at `take(0)`, with the state behind it.
abbrev pub Created : Type 0 → Type 0
Created S = Outcome Text (Outcome Text (Outcome Text Rows × S))

-- The statements of the transaction.
pub record Transaction (F G S : Type 0) : Type 0 where
  pub ids_by_sha : Text → S → Outcome Text (Outcome Text (Outcome Text Rows))
  pub replace : RecordId → DocumentData → S → Outcome Text (Outcome Text S)
  pub create_document : DocumentData → S → Created S
  pub create_chunk : NewChunk F → S → Created S
  pub run : Run G S
  pub exec : Exec S
  pub parse : Text → Outcome Text RecordId

abbrev pub first_id : Rows → Option Text
first_id [] = none
first_id (id ∷ _) = id

abbrev pub document_record : Text → RecordId
document_record key = record { table = lit "document"; key = key }

-- `record_key`
unfoldable pub record_key : Text → Outcome SkbError Text
record_key doc_id =
    ok_or (skb_error ErrorCode.db (lit "unexpected document id format"))
      (strip_prefix (lit "document:") doc_id)

unfoldable pub zip {ℓ} : {A B : Type ℓ} → List A → List B → List (A × B)
zip [] _ = []
zip (_ ∷ _) [] = []
zip (x ∷ xs) (y ∷ ys) = (x, y) ∷ zip xs ys

module _ {F G S : Type 0} (tx : Transaction F G S) where
  -- `doc_id_by_sha`
  unfoldable pub doc_id_by_sha : Text → S → Outcome SkbError Text
  doc_id_by_sha sha256 s = do
    sent ← map_err (db_error (lit "doc lookup")) (tx.ids_by_sha sha256 s)
    checked ← map_err (db_error (lit "doc lookup check")) sent
    rows ← map_err (db_error (lit "doc lookup take")) checked
    ok_or (skb_error ErrorCode.db (lit "document vanished during upload")) (first_id rows)

  -- The update in place of a document that is there.
  unfoldable pub replace_document : DocumentData → S → Outcome SkbError (Text × S)
  unfolding doc_id_by_sha
  replace_document doc s = do
    key ← doc_id_by_sha doc.sha256 s
    r ← map_err (db_error (lit "upload replace")) (tx.replace (document_record key) doc s)
    s ← map_err (db_error (lit "upload replace check")) r
    ok (lit "document:" ++ key, s)

  unfoldable pub create_document : DocumentData → S → Outcome SkbError (Text × S)
  create_document doc s = do
    sent ← map_err (db_error (lit "upload doc")) (tx.create_document doc s)
    (taken, s) ← map_err (db_error (lit "upload doc check")) sent
    rows ← map_err (db_error (lit "upload doc take")) taken
    id ← ok_or (skb_error ErrorCode.db (lit "failed to get document id")) (first_id rows)
    ok (id, s)

  unfoldable pub document_of : Bool → DocumentData → S → Outcome SkbError (Text × S)
  unfolding replace_document create_document
  document_of true doc s = replace_document doc s
  document_of false doc s = create_document doc s

  unfoldable pub store_chunk : RecordId → ℕ → Chunk × F → S → Outcome SkbError (Text × S)
  store_chunk document i (chunk, embedding) s = do
    sent ← map_err (db_error (lit "upload chunk " ++ show i)) (
        tx.create_chunk
          (record {
            document = document;
            idx = i;
            content = chunk.content;
            token_count = chunk.token_count;
            embedding = embedding;
            heading = chunk.heading;
          })
          s)
    (taken, s) ← map_err (db_error (lit "upload chunk " ++ show i ++ lit " check")) sent
    rows ← map_err (db_error (lit "upload chunk take")) taken
    cid ←
        ok_or (skb_error ErrorCode.db (lit "chunk " ++ show i ++ lit " did not return an id"))
          (first_id rows)
    ok (cid, s)

  -- The loop over the chunks with their embeddings.
  unfoldable pub store_chunks :
      RecordId → ℕ → List (Chunk × F) → S → Outcome SkbError (List Text × S)
  unfolding store_chunk
  store_chunks document i [] s = ok ([], s)
  store_chunks document i (chunk ∷ chunks) s = store_chunk document i chunk s >>= λ (cid, s).
      store_chunks document (i + 1) chunks s >>= λ (cids, s). ok (cid ∷ cids, s)

  -- The loop over the chunks and their ids, which collects the names of the entities.
  unfoldable pub index_chunks :
      Patterns → List (Text × Chunk) → S → Outcome SkbError (List Text × S)
  unfolding index_chunk_entities_in_transaction
  index_chunks p [] s = ok ([], s)
  index_chunks p ((cid, chunk) ∷ rest) s =
      index_chunk_entities_in_transaction tx.run tx.parse p cid chunk.content s >>= λ (names, s).
      index_chunks p rest s >>= λ (more, s). ok (names ++ more, s)

  -- `store_and_index`
  unfoldable pub store_and_index :
      Patterns
      → DocumentData
      → List Chunk
      → List F
      → Bool
      → S
      → Outcome SkbError ((Text × List Text) × S)
  unfolding document_of record_key store_chunks index_chunks link_section_hierarchy zip
  store_and_index p doc chunks embeddings replace_existing s = do
    (doc_id, s) ← document_of replace_existing doc s
    key ← record_key doc_id
    (cids, s) ← store_chunks (document_record key) 0 (zip chunks embeddings) s
    (names, s) ← index_chunks p (zip cids chunks) s
    s ← link_section_hierarchy tx.exec p doc.content s
    ok ((doc_id, dedup (sort_by text_le names)), s)

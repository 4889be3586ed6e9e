-- ===== src/Reindex/Document.antt =====
-- `rebuild_document` and `rebuild_document_retrying` of crates/skb-core/src/reindex.rs. The statements
-- are the database's; a number at `begin` and `commit` is the attempt.
use surreal_knowledge_base.Base.{
  ℕ, zero, suc, ◌+◌, Text, lit, show, contains, Option, none, some, List, [], ◌∷◌, ◌++◌,
  if◌then◌else◌,
}
use surreal_knowledge_base.Base.Sort.{sort_by, text_le, dedup}
use surreal_knowledge_base.Error.{
  ErrorCode, SkbError, skb_error, Outcome, ok, err, panic, out_of_fuel, ◌>>=◌, ◌>>◌, map_err, ok_or,
}
use surreal_knowledge_base.Error.Action.{Action}
use surreal_knowledge_base.Search.Filter.{Query, db_error}
use surreal_knowledge_base.Search.Hits.{unwrap_or}
use surreal_knowledge_base.Tokenize.Chunk.{Chunk}
use surreal_knowledge_base.Graph.Ids.{RecordId}
use surreal_knowledge_base.Graph.Extract.{Patterns}
use surreal_knowledge_base.Graph.Index.{Run, index_chunk_entities_in_transaction}
use surreal_knowledge_base.Graph.Sections.{Exec, link_section_hierarchy}
use surreal_knowledge_base.Ingest.Store.{NewChunk, Created, first_id, document_record, zip}
use surreal_knowledge_base.Database
use surreal_knowledge_base.Database.{statement}

-- A row of the documents, where `as_str` finds a text or not.
pub record DocRow : Type 0 where
  pub did : Option Text
  pub content : Option Text

pub record Statements (F G S : Type 0) : Type 0 where
  pub meta : Database.Statements S
  pub find_documents : S → Query (List DocRow)
  pub begin : ℕ → S → Outcome Text (Unit {0})
  pub commit : ℕ → S → Outcome Text (Unit {0})
  pub wipe : S → Outcome Text (Outcome Text S)
  pub redefine_field : ℕ → S → Outcome Text (Outcome Text S)
  pub define_index : ℕ → S → Outcome Text (Outcome Text S)
  -- The mentions and chunks of a document.
  pub delete_chunks : RecordId → S → Outcome Text (Outcome Text S)
  pub create_chunk : NewChunk F → S → Created S
  pub run : Run G S
  pub exec : Exec S
  pub parse : Text → Outcome Text RecordId

module _ {F G S : Type 0} (db : Statements F G S) where
  unfoldable pub recreate_chunk : RecordId → ℕ → Chunk × F → S → Outcome SkbError (Text × S)
  recreate_chunk document i (chunk, embedding) s = do
    sent ← map_err (db_error (lit "reindex chunk")) (
        db.create_chunk
          (record {
            document = document;
            idx = i;
            content = chunk.content;
            token_count = chunk.token_count;
            embedding = embedding;
            heading = chunk.heading;
          })
          s)
    (taken, s) ← map_err (db_error (lit "reindex chunk check")) sent
    rows ← map_err (db_error (lit "reindex chunk take")) taken
    cid ←
        ok_or
          (skb_error ErrorCode.db
            (lit "reindex chunk " ++ show i ++ lit " did not return a chunk id"))
          (first_id rows)
    ok (cid, s)

  unfoldable pub recreate_chunks :
      RecordId → ℕ → List (Chunk × F) → S → Outcome SkbError (List Text × S)
  unfolding recreate_chunk
  recreate_chunks document i [] s = ok ([], s)
  recreate_chunks document i (chunk ∷ chunks) s = recreate_chunk document i chunk s >>= λ (cid, s).
      recreate_chunks document (i + 1) chunks s >>= λ (cids, s). ok (cid ∷ cids, s)

  unfoldable pub index_again : Patterns → List (Text × Chunk) → S → Outcome SkbError (List Text × S)
  unfolding index_chunk_entities_in_transaction
  index_again p [] s = ok ([], s)
  index_again p ((cid, chunk) ∷ rest) s =
      index_chunk_entities_in_transaction db.run db.parse p cid chunk.content s >>= λ (names, s).
      index_again p rest s >>= λ (more, s). ok (names ++ more, s)

  -- `rebuild_document`; its set of names in the order of the texts.
  unfoldable pub rebuild_document :
      Patterns → Text → Text → List Chunk → List F → S → Outcome SkbError (List Text × S)
  unfolding recreate_chunks index_again link_section_hierarchy zip
  rebuild_document p did content chunks embeddings s = do
    s ← statement (lit "reindex del") (db.delete_chunks (document_record did) s)
    (cids, s) ← recreate_chunks (document_record did) 0 (zip chunks embeddings) s
    (names, s) ← index_again p (zip cids chunks) s
    s ← link_section_hierarchy db.exec p content s
    ok (dedup (sort_by text_le names), s)

  -- One attempt: the names and the state to commit, with the answer of the commit.
  unfoldable pub attempt_once :
      Patterns
      → Text
      → Text
      → List Chunk
      → List F
      → ℕ
      → S
      → Outcome SkbError ((List Text × S) × Outcome Text (Unit {0}))
  unfolding rebuild_document
  attempt_once p did content chunks embeddings attempt s = do
    map_err (db_error (lit "reindex begin")) (db.begin attempt s)
    (names, t) ← rebuild_document p did content chunks embeddings s
    ok ((names, t), db.commit attempt t)

-- After an attempt: done, tried again, or ended with an error.
unfoldable pub after_attempt :
    {S : Type 0}
    → S
    → (Text → Outcome SkbError (List Text) × S)
    → Outcome SkbError ((List Text × S) × Outcome Text (Unit {0}))
    → Outcome SkbError (List Text) × S
after_attempt s again (ok ((names, t), ok _)) = (ok names, t)
after_attempt s again (ok (_, err e)) =
    let retried = again e in
    if contains (lit "Transaction write conflict") e
    then retried
    else (err (db_error (lit "reindex commit") e), s)
after_attempt s again (ok (_, panic)) = (panic, s)
after_attempt s again (ok (_, out_of_fuel)) = (out_of_fuel, s)
after_attempt s again (err e) = (err e, s)
after_attempt s again panic = (panic, s)
after_attempt s again out_of_fuel = (out_of_fuel, s)

module _ {F G S : Type 0} (db : Statements F G S) where
  -- The attempts that are left, with the last conflict.
  unfoldable pub retry_loop :
      Patterns → Text → Text → List Chunk → List F → ℕ → ℕ → Option Text → Action S (List Text)
  unfolding attempt_once after_attempt
  retry_loop p did content chunks embeddings zero attempt last s =
      (err (skb_error ErrorCode.db (lit "reindex commit: " ++ unwrap_or [] last)), s)
  retry_loop p did content chunks embeddings (suc left) attempt last s =
      after_attempt s
        (λ e. retry_loop p did content chunks embeddings left (attempt + 1) (some e) s)
        (attempt_once db p did content chunks embeddings attempt s)

  -- `rebuild_document_retrying`: at most 8 attempts.
  unfoldable pub rebuild_document_retrying :
      Patterns → Text → Text → List Chunk → List F → Action S (List Text)
  unfolding retry_loop
  rebuild_document_retrying p did content chunks embeddings =
      retry_loop p did content chunks embeddings 8 0 none

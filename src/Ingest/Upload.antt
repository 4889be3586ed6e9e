-- ===== src/Ingest/Upload.antt =====
-- `upload` of crates/skb-core/src/ingest.rs: one document from the request to the commit. The
-- embedder, the tokenizer and the statements of the database are parameters.
pub mod Written
pub mod Consistent
use surreal_knowledge_base.Base.{
  ℕ, ◌+◌, ◌%◌, Text, lit, Bool, false, not, ◌&&◌, ltb, Option, none, some, List, [], ◌∷◌, map,
  length, if◌then◌else◌,
}
use surreal_knowledge_base.Error.{
  SkbError, Outcome, ok, err, panic, out_of_fuel, ◌>>=◌, ◌>>◌, map_err,
}
use surreal_knowledge_base.Config.{Config}
use surreal_knowledge_base.Search.Filter.{Query, fetch, db_error}
use surreal_knowledge_base.Search.Hits.{unwrap_or}
use surreal_knowledge_base.Tokenize.Chunk.{Chunk, usize_mod}
use surreal_knowledge_base.Graph.Extract.{Patterns}
use surreal_knowledge_base.Ingest.Source.{Machine, UploadRequest, DocumentData}
use surreal_knowledge_base.Ingest.Document.{validate_upload, extract_document_data}
use surreal_knowledge_base.Ingest.Embed.{embed_batch}
use surreal_knowledge_base.Ingest.Store.{Transaction, store_and_index}

pub record UploadResult : Type 0 where
  pub document_id : Option Text
  pub title : Text
  pub status : Text
  pub chunks : ℕ
  pub tokens : ℕ
  pub sha256 : Text
  pub entities : List Text

-- The database: the count of documents with a hash, and transactions, which change the state only
-- when they are committed.
pub record Database (F G S : Type 0) : Type 0 where
  pub count_by_sha : Text → S → Query (List (Option ℕ))
  pub begin : S → Outcome Text (Unit {0})
  pub transaction : Transaction F G S
  pub commit : S → Outcome Text (Unit {0})

-- `rows.first().and_then(|v| v["c"].as_u64()).unwrap_or(0)`
abbrev pub first_count : List (Option ℕ) → ℕ
first_count [] = 0
first_count (c ∷ _) = unwrap_or 0 c

-- `usize::sum`
abbrev pub total_tokens : List Chunk → ℕ
total_tokens [] = 0
total_tokens (c ∷ cs) = (c.token_count + total_tokens cs) % usize_mod

not_stored : Text → DocumentData → UploadResult
not_stored status doc = record {
  document_id = none;
  title = doc.title;
  status = status;
  chunks = 0;
  tokens = 0;
  sha256 = doc.sha256;
  entities = [];
}

-- What is decided before the transaction: nothing to store, or a document with its chunks and their
-- embeddings, in place of one that exists or not.
pub data Plan (F : Type 0) : Type 0 where
  finished : UploadResult → Plan F
  write : DocumentData → List Chunk → List F → Bool → Plan F

stored_result : DocumentData → List Chunk → Bool → Text → List Text → UploadResult
stored_result doc chunks existed doc_id entities = record {
  document_id = some doc_id;
  title = doc.title;
  status = if existed then lit "updated" else lit "created";
  chunks = length chunks;
  tokens = total_tokens chunks;
  sha256 = doc.sha256;
  entities = entities;
}

-- The state after a transaction: the one that was committed, or the one before.
settle : {A S : Type 0} → S → Outcome SkbError (A × S) → Outcome SkbError A × S
settle s (ok (a, t)) = (ok a, t)
settle s (err e) = (err e, s)
settle s panic = (panic, s)
settle s out_of_fuel = (out_of_fuel, s)

abbrev pub force_of : UploadRequest → Bool
force_of req = unwrap_or false req.force

module _ {F G S : Type 0} (db : Database F G S) where
  -- `doc_exists`
  unfoldable pub doc_exists : Text → S → Outcome SkbError Bool
  doc_exists sha256 s = do
    rows ← fetch (lit "doc_exists") (db.count_by_sha sha256 s)
    ok (ltb 0 (first_count rows))

module _ {F G S : Type 0} (db : Database F G S) (m : Machine)
    (tokenizer : Text → ℕ → ℕ → Outcome SkbError (List Chunk))
    (embedder : List Text → Outcome SkbError (List F)) (p : Patterns) (config : Config) where
  plan_chunks : DocumentData → Bool → List Chunk → Outcome SkbError (Plan F)
  unfolding not_stored
  plan_chunks doc existed [] = ok (finished (not_stored (lit "empty") doc))
  plan_chunks doc existed (c ∷ cs) = do
    embeddings ← embed_batch embedder (map (λ k. k.content) (c ∷ cs)) config.embedding.batch_size
    ok (write doc (c ∷ cs) embeddings existed)

  plan_document : DocumentData → Bool → Outcome SkbError (Plan F)
  unfolding plan_chunks
  plan_document doc existed = do
    chunks ← tokenizer doc.content config.chunking.max_tokens config.chunking.overlap_tokens
    plan_chunks doc existed chunks

  plan : UploadRequest → S → Outcome SkbError (Plan F)
  unfolding doc_exists plan_document not_stored
  plan req s = do
    validate_upload req
    doc ← extract_document_data m config req
    existed ← doc_exists db doc.sha256 s
    if not (force_of req) && existed
        then ok (finished (not_stored (lit "skipped") doc))
        else plan_document doc existed

  commit_document :
      Bool → DocumentData → List Chunk → List F → Bool → S → Outcome SkbError (UploadResult × S)
  unfolding store_and_index stored_result
  commit_document force doc chunks embeddings existed s = do
    map_err (db_error (lit "upload begin")) (db.begin s)
    ((doc_id, entities), t) ←
        store_and_index db.transaction p doc chunks embeddings (force && existed) s
    map_err (db_error (lit "upload commit")) (db.commit t)
    ok (stored_result doc chunks existed doc_id entities, t)

  carry_out : Bool → Outcome SkbError (Plan F) → S → Outcome SkbError UploadResult × S
  unfolding commit_document settle
  carry_out force (ok (finished r)) s = (ok r, s)
  carry_out force (ok (write doc chunks embeddings existed)) s =
      settle s (commit_document force doc chunks embeddings existed s)
  carry_out force (err e) s = (err e, s)
  carry_out force panic s = (panic, s)
  carry_out force out_of_fuel s = (out_of_fuel, s)

  -- `upload`: its answer, and the state after it.
  unfoldable pub upload : UploadRequest → S → Outcome SkbError UploadResult × S
  unfolding carry_out plan
  upload req s = carry_out (force_of req) (plan req s) s

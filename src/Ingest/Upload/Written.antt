-- ===== src/Ingest/Upload/Written.antt =====
-- What an upload (crates/skb-core/src/ingest.rs) leaves in the database.
use surreal_knowledge_base.Base.{
  ℕ, ◌≡◌, refl, subst, ◌⊎◌, inl, inr, Text, lit, Bool, false, not, ◌&&◌, Bool-cases, none, some,
  List, [], ◌∷◌, map, length,
}
use surreal_knowledge_base.Error.{
  SkbError, Outcome, ok, err, panic, out_of_fuel, map_err, >>=-eq-ok, ok-injective,
}
use surreal_knowledge_base.Config.{Config}
use surreal_knowledge_base.Search.Filter.{db_error}
use surreal_knowledge_base.Tokenize.Chunk.{Chunk}
use surreal_knowledge_base.Graph.Extract.{Patterns}
use surreal_knowledge_base.Ingest.Source.{Machine, UploadRequest, DocumentData}
use surreal_knowledge_base.Ingest.Document.{validate_upload, extract_document_data}
use surreal_knowledge_base.Ingest.Embed.{embed_batch}
use surreal_knowledge_base.Ingest.Store.{store_and_index}
use surreal_knowledge_base.Ingest.Store.Tables.{Tables, IsTransaction}
use surreal_knowledge_base.Ingest.Store.Written.{IsWritten, store_and_index-IsWritten}
use surreal_knowledge_base.Ingest.Upload.{
  Database, UploadResult, Plan, finished, write, doc_exists, force_of, not_stored, plan,
  plan_document, plan_chunks, stored_result, settle, commit_document, carry_out, upload,
}

module _ {F G S : Type 0} (view : S → Tables F) (db : Database F G S) (m : Machine)
    (tokenizer : Text → ℕ → ℕ → Outcome SkbError (List Chunk))
    (embedder : List Text → Outcome SkbError (List F)) (p : Patterns) (config : Config) where
  -- The document of a request, with its chunks and their embeddings, that may be written: it is new, or
  -- the request asks for it again.
  pub record IsPlanned (req : UploadRequest) (before : S) (doc : DocumentData) (chunks : List Chunk)
      (embeddings : List F) (existed : Bool) : Type 0 where
    pub extracted : extract_document_data m config req ≡ ok doc
    pub looked_up : doc_exists db doc.sha256 before ≡ ok existed
    pub wanted : (not (force_of req) && existed) ≡ false
    pub chunked :
        tokenizer doc.content config.chunking.max_tokens config.chunking.overlap_tokens ≡ ok chunks
    pub embedded :
        embed_batch embedder (map (λ c. c.content) chunks) config.embedding.batch_size
        ≡ ok embeddings

  -- A result that tells of a document that was written.
  pub record IsStored (req : UploadRequest) (before after : S) (r : UploadResult) : Type 0 where
    pub doc : DocumentData
    pub chunks : List Chunk
    pub embeddings : List F
    pub existed : Bool
    pub doc_id : Text
    pub planned : IsPlanned req before doc chunks embeddings existed
    pub told : r.document_id ≡ some doc_id
    pub counted : r.chunks ≡ length chunks
    pub written :
        IsWritten (force_of req && existed) doc chunks embeddings doc_id (view before) (view after)

  -- What may have become of the state, by the answer.
  abbrev pub IsUpload : UploadRequest → S → Outcome SkbError UploadResult × S → Type 0
  IsUpload req before (ok r, after) =
      ((r.document_id ≡ none) × (after ≡ before)) ⊎ IsStored req before after r
  IsUpload req before (err _, after) = after ≡ before
  IsUpload req before (panic, after) = after ≡ before
  IsUpload req before (out_of_fuel, after) = after ≡ before

  -- What a plan says of the request.
  abbrev IsPlan : UploadRequest → S → Plan F → Type 0
  IsPlan req before (finished r) = r.document_id ≡ none
  IsPlan req before (write doc chunks embeddings existed) =
      IsPlanned req before doc chunks embeddings existed

  plan_document-IsPlan :
      (req : UploadRequest) (before : S) (doc : DocumentData) (existed : Bool) (q : Plan F)
      → extract_document_data m config req ≡ ok doc
      → doc_exists db doc.sha256 before ≡ ok existed
      → (not (force_of req) && existed) ≡ false
      → plan_document db m tokenizer embedder p config doc existed ≡ ok q
      → IsPlan req before q
  unfolding plan_document plan_chunks not_stored
  plan_document-IsPlan req before doc existed q extracted looked_up wanted h =
      let (chunks, chunked, h) =
        >>=-eq-ok (tokenizer doc.content config.chunking.max_tokens config.chunking.overlap_tokens)
          _ h in
      by_chunks chunks chunked h
    where
      by_chunks :
          (chunks : List Chunk)
          → tokenizer doc.content config.chunking.max_tokens config.chunking.overlap_tokens
            ≡ ok chunks
          → plan_chunks db m tokenizer embedder p config doc existed chunks ≡ ok q
          → IsPlan req before q
      by_chunks [] chunked h = subst (IsPlan req before) (ok-injective h) refl
      by_chunks (c ∷ cs) chunked h =
          let (embeddings, embedded, h) =
            >>=-eq-ok
              (embed_batch embedder (map (λ k. k.content) (c ∷ cs)) config.embedding.batch_size) _
              h in
          subst (IsPlan req before) (ok-injective h) (record {
            extracted = extracted;
            looked_up = looked_up;
            wanted = wanted;
            chunked = chunked;
            embedded = embedded;
          })

  plan-IsPlan :
      (req : UploadRequest) (before : S) (q : Plan F)
      → plan db m tokenizer embedder p config req before ≡ ok q
      → IsPlan req before q
  unfolding plan
  plan-IsPlan req before q h =
      let (_, _, h) = >>=-eq-ok (validate_upload req) _ h in
      let (doc, extracted, h) = >>=-eq-ok (extract_document_data m config req) _ h in
      let (existed, looked_up, h) = >>=-eq-ok (doc_exists db doc.sha256 before) _ h in
      elim (Bool-cases (not (force_of req) && existed)) [
        | inl e ↦ subst (IsPlan req before) (ok-injective (rw e at h)) (unfold not_stored in refl)
        | inr e ↦ plan_document-IsPlan req before doc existed q extracted looked_up e (rw e at h)
      ]

  module _ (laws : IsTransaction view db.transaction) where
    commit_document-IsStored :
        (req : UploadRequest) (doc : DocumentData) (chunks : List Chunk) (embeddings : List F)
        (existed : Bool) (s : S) (r : UploadResult × S)
        → IsPlanned req s doc chunks embeddings existed
        → commit_document db m tokenizer embedder p config
            (force_of req)
            doc
            chunks
            embeddings
            existed
            s
          ≡ ok r
        → IsStored req s r.1 r.0
    unfolding commit_document
    commit_document-IsStored req doc chunks embeddings existed s r planned h =
        let (_, _, h) = >>=-eq-ok (map_err (db_error (lit "upload begin")) (db.begin s)) _ h in
        let (((doc_id, entities), t), stored, h) =
          >>=-eq-ok
            (store_and_index db.transaction p doc chunks embeddings (force_of req && existed) s) _
            h in
        let (_, _, h) = >>=-eq-ok (map_err (db_error (lit "upload commit")) (db.commit t)) _ h in
        subst (λ x. IsStored req s x.1 x.0) (ok-injective h)
          (record {
            doc = doc;
            chunks = chunks;
            embeddings = embeddings;
            existed = existed;
            doc_id = doc_id;
            planned = planned;
            told = unfold stored_result in refl;
            counted = unfold stored_result in refl;
            written =
                store_and_index-IsWritten view db.transaction p laws doc chunks embeddings
                  (force_of req && existed) s ((doc_id, entities), t) stored;
          })

    settle-IsUpload :
        (req : UploadRequest) (s : S) (c : Outcome SkbError (UploadResult × S))
        → ((r : UploadResult × S) → c ≡ ok r → IsStored req s r.1 r.0)
        → IsUpload req s (settle s c)
    unfolding settle
    settle-IsUpload req s (ok r) stored = inr (stored r refl)
    settle-IsUpload req s (err e) stored = refl
    settle-IsUpload req s panic stored = refl
    settle-IsUpload req s out_of_fuel stored = refl

    carry_out-IsUpload :
        (req : UploadRequest) (s : S) (o : Outcome SkbError (Plan F))
        → plan db m tokenizer embedder p config req s ≡ o
        → IsUpload req s (carry_out db m tokenizer embedder p config (force_of req) o s)
    unfolding carry_out
    carry_out-IsUpload req s (ok (finished r)) e = inl (plan-IsPlan req s (finished r) e, refl)
    carry_out-IsUpload req s (ok (write doc chunks embeddings existed)) e =
        settle-IsUpload req s _ (λ r h.
          commit_document-IsStored req doc chunks embeddings existed s r
            (plan-IsPlan req s (write doc chunks embeddings existed) e) h)
    carry_out-IsUpload req s (err _) e = refl
    carry_out-IsUpload req s panic e = refl
    carry_out-IsUpload req s out_of_fuel e = refl

    -- An upload that fails, is skipped, or finds no chunks leaves the database as it was. One that
    -- tells the id of a document has stored exactly it: the document that was extracted, which is new or
    -- asked for by force, under a free key or, if its hash was there, under the key of that document;
    -- and its chunks, in place of any old ones, with their embeddings and numbered from 0.
    pub upload-IsUpload :
        (req : UploadRequest) (s : S)
        → IsUpload req s (upload db m tokenizer embedder p config req s)
    unfolding upload
    upload-IsUpload req s =
        carry_out-IsUpload req s (plan db m tokenizer embedder p config req s) refl

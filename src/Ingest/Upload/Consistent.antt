-- ===== src/Ingest/Upload/Consistent.antt =====
-- The invariant of the tables that an upload (crates/skb-core/src/ingest.rs) keeps.
use surreal_knowledge_base.Base.{
  ℕ, ◌≡◌, ◌≢◌, refl, sym, ap, subst, ◌∙◌, Text, lit, inl, inr, ltb, Option, List, All, arith, Bool,
  true, false, ◌&&◌,
}
use surreal_knowledge_base.Error.{
  SkbError, Outcome, ok, err, panic, out_of_fuel, checked-eq-ok, >>=-eq-ok, ok-injective,
}
use surreal_knowledge_base.Config.{Config}
use surreal_knowledge_base.Search.Filter.{fetch}
use surreal_knowledge_base.Tokenize.Chunk.{Chunk}
use surreal_knowledge_base.Graph.Extract.{Patterns}
use surreal_knowledge_base.Ingest.Source.{Machine, UploadRequest, DocumentData}
use surreal_knowledge_base.Ingest.Store.{zip}
use surreal_knowledge_base.Ingest.Store.Steps.{IsPlaced}
use surreal_knowledge_base.Ingest.Store.Tables.{Tables, HasKey, IsTransaction}
use surreal_knowledge_base.Ingest.Store.Written.{IsWritten}
use surreal_knowledge_base.Ingest.Store.Consistent.{
  IsConsistent, add_document-IsConsistent, replaced-IsConsistent, add_chunks-IsConsistent,
  HasKey-added, HasKey-replaced,
}
use surreal_knowledge_base.Ingest.Upload.{
  Database, UploadResult, first_count, doc_exists, force_of, upload,
}
use surreal_knowledge_base.Ingest.Upload.Written.{IsUpload, upload-IsUpload}

-- A count that is read is 0 only if no document has the hash.
pub record IsCounting {F G S : Type 0} (view : S → Tables F) (db : Database F G S) : Type 0 where
  pub counts :
      (sha256 : Text) (s : S) (rows : List (Option ℕ))
      → db.count_by_sha sha256 s ≡ ok (ok rows)
      → first_count rows ≡ 0
      → All (λ d. d.doc.sha256 ≢ sha256) (view s).documents

IsPlaced-IsConsistent :
    {F : Type 0} (replace_existing : Bool) (doc : DocumentData) (key : Text)
    (before after : Tables F)
    → IsConsistent before
    → IsPlaced replace_existing doc key before after
    → (replace_existing ≡ false → All (λ d. d.doc.sha256 ≢ doc.sha256) before.documents)
    → IsConsistent after × HasKey key after.documents
IsPlaced-IsConsistent {F} false doc key before after c (fresh, same) new =
    subst (λ t. IsConsistent {F = F} t × HasKey key t.documents) (sym same)
      (add_document-IsConsistent key doc before c fresh (new refl), HasKey-added key doc before)
IsPlaced-IsConsistent {F} true doc key before after c (present, same) new =
    subst (λ t. IsConsistent {F = F} t × HasKey key t.documents) (sym same)
      (replaced-IsConsistent key doc before c present, HasKey-replaced key doc before present)

IsWritten-IsConsistent :
    {F : Type 0} (replace_existing : Bool) (doc : DocumentData) (chunks : List Chunk)
    (embeddings : List F) (doc_id : Text) (before after : Tables F)
    → IsConsistent before
    → IsWritten replace_existing doc chunks embeddings doc_id before after
    → (replace_existing ≡ false → All (λ d. d.doc.sha256 ≢ doc.sha256) before.documents)
    → IsConsistent after
IsWritten-IsConsistent replace_existing doc chunks embeddings doc_id before after c w new =
    let (placed, present) =
      IsPlaced-IsConsistent replace_existing doc w.key before w.placed c w.document new in
    subst IsConsistent (sym w.written)
      (add_chunks-IsConsistent w.key (zip chunks embeddings) w.placed placed present)

module _ {F G S : Type 0} (view : S → Tables F) (db : Database F G S) (m : Machine)
    (tokenizer : Text → ℕ → ℕ → Outcome SkbError (List Chunk))
    (embedder : List Text → Outcome SkbError (List F)) (p : Patterns) (config : Config)
    (laws : IsTransaction view db.transaction) (counting : IsCounting view db) where
  doc_exists-false :
      (sha256 : Text) (s : S)
      → doc_exists db sha256 s ≡ ok false
      → All (λ d. d.doc.sha256 ≢ sha256) (view s).documents
  unfolding doc_exists
  doc_exists-false sha256 s h =
      let (rows, found, h) = >>=-eq-ok (fetch (lit "doc_exists") (db.count_by_sha sha256 s)) _ h in
      let zero_count : ltb 0 (first_count rows) ≡ false = ok-injective h in
      counting.counts sha256 s rows (checked-eq-ok _ _ (db.count_by_sha sha256 s) rows found)
        (ground arith)

  after-IsConsistent :
      (req : UploadRequest) (before : S) (r : Outcome SkbError UploadResult) (after : S)
      → IsUpload view db m tokenizer embedder p config req before (r, after)
      → IsConsistent (view before)
      → IsConsistent (view after)
  after-IsConsistent req before (ok r) after (inl (_, same)) c =
      subst (λ s. IsConsistent (view s)) (sym same) c
  after-IsConsistent req before (ok r) after (inr w) c =
      IsWritten-IsConsistent (force_of req && w.existed) w.doc w.chunks w.embeddings w.doc_id
        (view before) (view after) c w.written
        (λ created.
          doc_exists-false w.doc.sha256 before (w.planned.looked_up ∙ ap ok (ground arith)))
  after-IsConsistent req before (err _) after same c =
      subst (λ s. IsConsistent (view s)) (sym same) c
  after-IsConsistent req before panic after same c = subst (λ s. IsConsistent (view s)) (sym same) c
  after-IsConsistent req before out_of_fuel after same c =
      subst (λ s. IsConsistent (view s)) (sym same) c

  -- However an upload ends, it keeps the invariant of the tables: keys of documents are distinct, no
  -- two documents have the same hash, and every chunk belongs to a document that is there.
  pub upload-IsConsistent :
      (req : UploadRequest) (s : S)
      → IsConsistent (view s)
      → IsConsistent (view (upload db m tokenizer embedder p config req s).1)
  upload-IsConsistent req s c =
      after-IsConsistent req s _ _
        (upload-IsUpload view db m tokenizer embedder p config laws req s) c

-- ===== src/Reindex/Frame.antt =====
-- The transactions of a reindex (crates/skb-core/src/reindex.rs) leave the marker in the metadata as it
-- is.
use surreal_knowledge_base.Base.{
  ℕ, zero, suc, ◌+◌, ◌≡◌, refl, ap, ◌∙◌, subst, Text, lit, text_eq, contains, false, Bool-cases,
  inl, inr, Option, none, some, List, [], ◌∷◌, if◌then◌else◌,
}
use surreal_knowledge_base.Error.{
  SkbError, Outcome, ok, err, panic, out_of_fuel, map_err, map_err-eq-ok, >>=-eq-ok, ok-injective,
  checked-eq-ok, ok_or,
}
use surreal_knowledge_base.Search.Filter.{db_error}
use surreal_knowledge_base.Tokenize.Chunk.{Chunk}
use surreal_knowledge_base.Graph.Ids.{RecordId}
use surreal_knowledge_base.Graph.Extract.{Patterns}
use surreal_knowledge_base.Graph.Index.{Statement, index_chunk_entities_in_transaction}
use surreal_knowledge_base.Graph.Index.Keeps.{index_chunk_entities_in_transaction-kept}
use surreal_knowledge_base.Graph.Sections.{Write, link_section_hierarchy}
use surreal_knowledge_base.Graph.Sections.Keeps.{link_section_hierarchy-kept}
use surreal_knowledge_base.Ingest.Store.{NewChunk, Rows, first_id, document_record, zip}
use surreal_knowledge_base.Database.{set_meta, statement}
use surreal_knowledge_base.Database.Meta.{IsMeta, set_meta-value}
use surreal_knowledge_base.Reindex.Document.{
  Statements, recreate_chunk, recreate_chunks, index_again, rebuild_document, attempt_once,
  after_attempt, retry_loop, rebuild_document_retrying,
}

abbrev marker_key : Text
marker_key = lit "reindex_in_progress"

-- The statements on other tables leave the metadata alone.
pub record IsFramed {F G S : Type 0} (value : Text → S → Option Text) (db : Statements F G S)
    : Type 0 where
  pub wipes : (s t : S) → db.wipe s ≡ ok (ok t) → (k : Text) → value k t ≡ value k s
  pub redefines :
      (dim : ℕ) (s t : S) → db.redefine_field dim s ≡ ok (ok t) → (k : Text) → value k t ≡ value k s
  pub defines_index :
      (dim : ℕ) (s t : S) → db.define_index dim s ≡ ok (ok t) → (k : Text) → value k t ≡ value k s
  pub deletes :
      (id : RecordId) (s t : S)
      → db.delete_chunks id s ≡ ok (ok t)
      → (k : Text) → value k t ≡ value k s
  pub creates :
      (c : NewChunk F) (s t : S) (rows : Outcome Text Rows)
      → db.create_chunk c s ≡ ok (ok (rows, t))
      → (k : Text) → value k t ≡ value k s
  pub runs :
      (w : Statement G) (s t : S) → db.run w s ≡ ok (ok t) → (k : Text) → value k t ≡ value k s
  pub execs : (w : Write) (s t : S) → db.exec w s ≡ ok (ok t) → (k : Text) → value k t ≡ value k s

module _ {F G S : Type 0} (value : Text → S → Option Text) (db : Statements F G S)
    (laws : IsMeta value db.meta) (frame : IsFramed value db) where
  -- The marker of a state.
  abbrev pub marker : S → Option Text
  marker s = value marker_key s

  pub set_other :
      (key val : Text) (s t : S)
      → text_eq key marker_key ≡ false
      → set_meta db.meta key val s ≡ ok t
      → marker t ≡ marker s
  set_other key val s t other h =
      set_meta-value value db.meta laws key val s t h marker_key
      ∙ ap (λ b. if b then some val else marker s) other

  recreate_chunk-marker :
      (document : RecordId) (i : ℕ) (c : Chunk × F) (s : S) (r : Text × S)
      → recreate_chunk db document i c s ≡ ok r
      → marker r.1 ≡ marker s
  unfolding recreate_chunk
  recreate_chunk-marker document i (chunk, embedding) s r h =
      let row : NewChunk F = record {
        document = document;
        idx = i;
        content = chunk.content;
        token_count = chunk.token_count;
        embedding = embedding;
        heading = chunk.heading;
      } in
      let (checked, sent, h) = >>=-eq-ok (map_err _ (db.create_chunk row s)) _ h in
      let ((taken, t), checked_ok, h) = >>=-eq-ok (map_err _ checked) _ h in
      let (rows, _, h) = >>=-eq-ok (map_err _ taken) _ h in
      let (cid, _, h) = >>=-eq-ok (ok_or _ (first_id rows)) _ h in
      subst (λ x. marker x.1 ≡ marker s) (ok-injective h)
        (frame.creates row s t taken
          (map_err-eq-ok _ (db.create_chunk row s) checked sent
            ∙ ap ok (map_err-eq-ok _ checked (taken, t) checked_ok))
          marker_key)

  recreate_chunks-marker :
      (document : RecordId) (i : ℕ) (chunks : List (Chunk × F)) (s : S) (r : List Text × S)
      → recreate_chunks db document i chunks s ≡ ok r
      → marker r.1 ≡ marker s
  unfolding recreate_chunks
  recreate_chunks-marker document i [] s r h =
      subst (λ x. marker x.1 ≡ marker s) (ok-injective h) refl
  recreate_chunks-marker document i (c ∷ chunks) s r h =
      let ((cid, t), first, h) = >>=-eq-ok (recreate_chunk db document i c s) _ h in
      let ((cids, u), rest, h) = >>=-eq-ok (recreate_chunks db document (i + 1) chunks t) _ h in
      subst (λ x. marker x.1 ≡ marker s) (ok-injective h)
        (recreate_chunks-marker document (i + 1) chunks t (cids, u) rest
          ∙ recreate_chunk-marker document i c s (cid, t) first)

  index_again-marker :
      (p : Patterns) (chunks : List (Text × Chunk)) (s : S) (r : List Text × S)
      → index_again db p chunks s ≡ ok r
      → marker r.1 ≡ marker s
  unfolding index_again
  index_again-marker p [] s r h = subst (λ x. marker x.1 ≡ marker s) (ok-injective h) refl
  index_again-marker p ((cid, chunk) ∷ rest) s r h =
      let ((names, t), first, h) =
        >>=-eq-ok (index_chunk_entities_in_transaction db.run db.parse p cid chunk.content s) _ h in
      let ((more, u), others, h) = >>=-eq-ok (index_again db p rest t) _ h in
      subst (λ x. marker x.1 ≡ marker s) (ok-injective h)
        (index_again-marker p rest t (more, u) others
          ∙ index_chunk_entities_in_transaction-kept (λ x. marker x ≡ marker s) db.run db.parse
              (record { kept = λ w a b accepted same. frame.runs w a b accepted marker_key ∙ same })
              p cid chunk.content s (names, t) first refl)

  rebuild_document-marker :
      (p : Patterns) (did content : Text) (chunks : List Chunk) (embeddings : List F) (s : S)
      (r : List Text × S)
      → rebuild_document db p did content chunks embeddings s ≡ ok r
      → marker r.1 ≡ marker s
  unfolding rebuild_document
  rebuild_document-marker p did content chunks embeddings s r h =
      let (t, deleted, h) =
        >>=-eq-ok (statement (lit "reindex del") (db.delete_chunks (document_record did) s)) _ h in
      let ((cids, u), created, h) =
        >>=-eq-ok (recreate_chunks db (document_record did) 0 (zip chunks embeddings) t) _ h in
      let ((names, v), indexed, h) = >>=-eq-ok (index_again db p (zip cids chunks) u) _ h in
      let (w, linked, h) = >>=-eq-ok (link_section_hierarchy db.exec p content v) _ h in
      subst (λ x. marker x.1 ≡ marker s) (ok-injective h)
        (link_section_hierarchy-kept (λ x. marker x ≡ marker v) db.exec
            (record { kept = λ x a b accepted same. frame.execs x a b accepted marker_key ∙ same })
            p content v w linked refl
          ∙ index_again-marker p (zip cids chunks) u (names, v) indexed
          ∙ recreate_chunks-marker (document_record did) 0 (zip chunks embeddings) t (cids, u)
              created
          ∙ frame.deletes (document_record did) s t
              (checked-eq-ok _ _ (db.delete_chunks (document_record did) s) t deleted) marker_key)

  after_attempt-marker :
      (s : S) (again : Text → Outcome SkbError (List Text) × S)
      (o : Outcome SkbError ((List Text × S) × Outcome Text (Unit {0})))
      → ((e : Text) → marker (again e).1 ≡ marker s)
      → ((r : (List Text × S) × Outcome Text (Unit {0})) → o ≡ ok r → marker r.0.1 ≡ marker s)
      → marker (after_attempt s again o).1 ≡ marker s
  unfolding after_attempt
  after_attempt-marker s again (ok (r, ok _)) retried done = done _ refl
  after_attempt-marker s again (ok (r, err e)) retried done =
      elim (Bool-cases (contains (lit "Transaction write conflict") e)) [
        | inl c ↦ rw c (retried e)
        | inr c ↦ rw c refl
      ]
  after_attempt-marker s again (ok (_, panic)) retried done = refl
  after_attempt-marker s again (ok (_, out_of_fuel)) retried done = refl
  after_attempt-marker s again (err e) retried done = refl
  after_attempt-marker s again panic retried done = refl
  after_attempt-marker s again out_of_fuel retried done = refl

  attempt_once-marker :
      (p : Patterns) (did content : Text) (chunks : List Chunk) (embeddings : List F) (attempt : ℕ)
      (s : S) (r : (List Text × S) × Outcome Text (Unit {0}))
      → attempt_once db p did content chunks embeddings attempt s ≡ ok r
      → marker r.0.1 ≡ marker s
  unfolding attempt_once
  attempt_once-marker p did content chunks embeddings attempt s r h =
      let (_, _, h) =
        >>=-eq-ok (map_err (db_error (lit "reindex begin")) (db.begin attempt s)) _ h in
      let (built, rebuilt, h) =
        >>=-eq-ok (rebuild_document db p did content chunks embeddings s) _ h in
      subst (λ x. marker x.0.1 ≡ marker s) (ok-injective h)
        (rebuild_document-marker p did content chunks embeddings s built rebuilt)

  retry_loop-marker :
      (p : Patterns) (did content : Text) (chunks : List Chunk) (embeddings : List F)
      (left attempt : ℕ) (last : Option Text) (s : S)
      → marker (retry_loop db p did content chunks embeddings left attempt last s).1 ≡ marker s
  unfolding retry_loop
  retry_loop-marker p did content chunks embeddings zero attempt last s = refl
  retry_loop-marker p did content chunks embeddings (suc left) attempt last s =
      after_attempt-marker s _ (attempt_once db p did content chunks embeddings attempt s)
        (λ e. retry_loop-marker p did content chunks embeddings left (attempt + 1) (some e) s)
        (λ r h. attempt_once-marker p did content chunks embeddings attempt s r h)

  pub retrying-marker :
      (p : Patterns) (did content : Text) (chunks : List Chunk) (embeddings : List F) (s : S)
      → marker (rebuild_document_retrying db p did content chunks embeddings s).1 ≡ marker s
  unfolding rebuild_document_retrying
  retrying-marker p did content chunks embeddings s =
      retry_loop-marker p did content chunks embeddings 8 0 none s

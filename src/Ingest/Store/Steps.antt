-- ===== src/Ingest/Store/Steps.antt =====
-- The steps of `store_and_index` (crates/skb-core/src/ingest.rs) against the tables.
use mathlib.Core.List.{append_assoc, append-nil}
use surreal_knowledge_base.Base.{
  ℕ, ◌+◌, ◌≡◌, refl, sym, ap, subst, ◌∙◌, Text, lit, Bool, true, false, Option, none, some, List,
  [], ◌∷◌, ◌++◌,
}
use surreal_knowledge_base.Error.{ok, map_err, map_err-eq-ok, >>=-eq-ok, ok-injective, ok_or}
use surreal_knowledge_base.Search.Filter.{db_error}
use surreal_knowledge_base.Tokenize.Chunk.{Chunk}
use surreal_knowledge_base.Graph.Ids.{RecordId}
use surreal_knowledge_base.Graph.Extract.{Patterns}
use surreal_knowledge_base.Graph.Index.{index_chunk_entities_in_transaction}
use surreal_knowledge_base.Graph.Index.Keeps.{index_chunk_entities_in_transaction-kept}
use surreal_knowledge_base.Ingest.Source.{DocumentData}
use surreal_knowledge_base.Ingest.Store.{
  NewChunk, Transaction, first_id, document_record, doc_id_by_sha, replace_document,
  create_document, document_of, store_chunk, store_chunks, index_chunks,
}
use surreal_knowledge_base.Ingest.Store.Tables.{
  Tables, add_document, add_chunk, add_chunks, replaced, HasKey, HasDocument, IsCreated,
  IsTransaction, numbered,
}

-- The document under its key: created under a new one, or replaced under the one that it had.
abbrev pub IsPlaced : {F : Type 0} → Bool → DocumentData → Text → Tables F → Tables F → Type 0
IsPlaced false doc key before after =
    (HasKey key before.documents → ⊥) × (after ≡ add_document key doc before)
IsPlaced true doc key before after =
    HasDocument key doc.sha256 before.documents × (after ≡ replaced key doc before)

pub ok_or-eq-ok : {E A : Type 0} (e : E) (o : Option A) (a : A) → ok_or e o ≡ ok a → o ≡ some a
ok_or-eq-ok e none a h = cc
ok_or-eq-ok e (some b) a h = ap some (ok-injective h)

module _ {F G S : Type 0} (view : S → Tables F) (tx : Transaction F G S)
    (laws : IsTransaction view tx) where
  doc_id_by_sha-HasDocument :
      (sha256 : Text) (s : S) (key : Text)
      → doc_id_by_sha tx sha256 s ≡ ok key
      → HasDocument key sha256 (view s).documents
  unfolding doc_id_by_sha
  doc_id_by_sha-HasDocument sha256 s key h =
      let (checked, sent, h) =
        >>=-eq-ok (map_err (db_error (lit "doc lookup")) (tx.ids_by_sha sha256 s)) _ h in
      let (taken, checked_ok, h) =
        >>=-eq-ok (map_err (db_error (lit "doc lookup check")) checked) _ h in
      let (rows, taken_ok, h) = >>=-eq-ok (map_err (db_error (lit "doc lookup take")) taken) _ h in
      laws.found sha256 s rows key
        (map_err-eq-ok _ (tx.ids_by_sha sha256 s) checked sent
          ∙ ap ok (
              map_err-eq-ok _ checked taken checked_ok
              ∙ ap ok (map_err-eq-ok _ taken rows taken_ok)))
        (ok_or-eq-ok _ (first_id rows) key h)

  create_document-IsCreated :
      (doc : DocumentData) (s : S) (r : Text × S)
      → create_document tx doc s ≡ ok r
      → IsCreated doc r.0 (view s) (view r.1)
  unfolding create_document
  create_document-IsCreated doc s r h =
      let (checked, sent, h) =
        >>=-eq-ok (map_err (db_error (lit "upload doc")) (tx.create_document doc s)) _ h in
      let ((taken, t), checked_ok, h) =
        >>=-eq-ok (map_err (db_error (lit "upload doc check")) checked) _ h in
      let (rows, taken_ok, h) = >>=-eq-ok (map_err (db_error (lit "upload doc take")) taken) _ h in
      let (id, told, h) = >>=-eq-ok (ok_or _ (first_id rows)) _ h in
      subst (λ x. IsCreated doc x.0 (view s) (view x.1)) (ok-injective h)
        (laws.creates_document doc s t rows id
          (map_err-eq-ok _ (tx.create_document doc s) checked sent
            ∙ ap ok (
                map_err-eq-ok _ checked (taken, t) checked_ok
                ∙ ap (λ x. ok (x, t)) (map_err-eq-ok _ taken rows taken_ok)))
          (ok_or-eq-ok _ (first_id rows) id told))

  -- The document under a key that the id tells.
  pub record IsStored (replace_existing : Bool) (doc : DocumentData) (before : Tables F)
      (r : Text × S) : Type 0 where
    pub key : Text
    pub told : r.0 ≡ lit "document:" ++ key
    pub placed : IsPlaced replace_existing doc key before (view r.1)

  replace_document-IsStored :
      (doc : DocumentData) (s : S) (r : Text × S)
      → replace_document tx doc s ≡ ok r
      → IsStored true doc (view s) r
  unfolding replace_document
  replace_document-IsStored doc s r h =
      let (key, found, h) = >>=-eq-ok (doc_id_by_sha tx doc.sha256 s) _ h in
      let (checked, sent, h) =
        >>=-eq-ok
          (map_err (db_error (lit "upload replace")) (tx.replace (document_record key) doc s)) _
          h in
      let (t, checked_ok, h) =
        >>=-eq-ok (map_err (db_error (lit "upload replace check")) checked) _ h in
      subst (IsStored true doc (view s)) (ok-injective h) (record {
        key = key;
        told = refl;
        placed = (
          doc_id_by_sha-HasDocument doc.sha256 s key found,
          laws.replaces key doc s t (
              map_err-eq-ok _ (tx.replace (document_record key) doc s) checked sent
              ∙ ap ok (map_err-eq-ok _ checked t checked_ok)),
        );
      })

  pub document_of-IsStored :
      (replace_existing : Bool) (doc : DocumentData) (s : S) (r : Text × S)
      → document_of tx replace_existing doc s ≡ ok r
      → IsStored replace_existing doc (view s) r
  unfolding document_of
  document_of-IsStored true doc s r h = replace_document-IsStored doc s r h
  document_of-IsStored false doc s r h =
      let made = create_document-IsCreated doc s r h in
      record { key = made.key; told = made.told; placed = (made.fresh, made.added) }

  store_chunk-add_chunk :
      (document : RecordId) (i : ℕ) (chunk : Chunk) (embedding : F) (s : S) (r : Text × S)
      → store_chunk tx document i (chunk, embedding) s ≡ ok r
      → view r.1 ≡ add_chunks (numbered document i ((chunk, embedding) ∷ [])) (view s)
  unfolding store_chunk
  store_chunk-add_chunk document i chunk embedding s r h =
      let row : NewChunk F = record {
        document = document;
        idx = i;
        content = chunk.content;
        token_count = chunk.token_count;
        embedding = embedding;
        heading = chunk.heading;
      } in
      let (checked, sent, h) = >>=-eq-ok (map_err _ (tx.create_chunk row s)) _ h in
      let ((taken, t), checked_ok, h) = >>=-eq-ok (map_err _ checked) _ h in
      let (rows, _, h) = >>=-eq-ok (map_err _ taken) _ h in
      let (cid, _, h) = >>=-eq-ok (ok_or _ (first_id rows)) _ h in
      subst (λ x. view x.1 ≡ add_chunk row (view s)) (ok-injective h)
        (laws.creates_chunk row s t taken (
          map_err-eq-ok _ (tx.create_chunk row s) checked sent
          ∙ ap ok (map_err-eq-ok _ checked (taken, t) checked_ok)))

  add_chunks-append :
      (xs ys : List (NewChunk F)) (t : Tables F)
      → add_chunks ys (add_chunks xs t) ≡ add_chunks (xs ++ ys) t
  add_chunks-append xs ys t = ap (λ cs. record t { chunks = cs }) (append_assoc t.chunks xs ys)

  pub store_chunks-add_chunks :
      (document : RecordId) (i : ℕ) (chunks : List (Chunk × F)) (s : S) (r : List Text × S)
      → store_chunks tx document i chunks s ≡ ok r
      → view r.1 ≡ add_chunks (numbered document i chunks) (view s)
  unfolding store_chunks
  store_chunks-add_chunks document i [] s r h =
      subst (λ x. view x.1 ≡ add_chunks [] (view s)) (ok-injective h)
        (ap (λ cs. record (view s) { chunks = cs }) (sym (append-nil (view s).chunks)))
  store_chunks-add_chunks document i ((chunk, embedding) ∷ chunks) s r h =
      let ((cid, t), first, h) = >>=-eq-ok (store_chunk tx document i (chunk, embedding) s) _ h in
      let ((cids, u), rest, h) = >>=-eq-ok (store_chunks tx document (i + 1) chunks t) _ h in
      subst
        (λ x. view x.1 ≡ add_chunks (numbered document i ((chunk, embedding) ∷ chunks)) (view s))
        (ok-injective h)
        (store_chunks-add_chunks document (i + 1) chunks t (cids, u) rest
          ∙ ap (add_chunks (numbered document (i + 1) chunks))
              (store_chunk-add_chunk document i chunk embedding s (cid, t) first)
          ∙ add_chunks-append _ _ (view s))

  pub index_chunks-view :
      (p : Patterns) (chunks : List (Text × Chunk)) (s : S) (r : List Text × S)
      → index_chunks tx p chunks s ≡ ok r
      → view r.1 ≡ view s
  unfolding index_chunks
  index_chunks-view p [] s r h = subst (λ x. view x.1 ≡ view s) (ok-injective h) refl
  index_chunks-view p ((cid, chunk) ∷ rest) s r h =
      let ((names, t), first, h) =
        >>=-eq-ok (index_chunk_entities_in_transaction tx.run tx.parse p cid chunk.content s) _ h in
      let ((more, u), others, h) = >>=-eq-ok (index_chunks tx p rest t) _ h in
      subst (λ x. view x.1 ≡ view s) (ok-injective h)
        (index_chunks-view p rest t (more, u) others
          ∙ index_chunk_entities_in_transaction-kept (λ x. view x ≡ view s) tx.run tx.parse
              (record { kept = λ w a b accepted same. laws.runs w a b accepted ∙ same }) p cid
              chunk.content s (names, t) first refl)

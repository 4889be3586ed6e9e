-- ===== src/Crud/Deleted.antt =====
-- What `delete_document` of crates/skb-core/src/crud.rs does to the tables of documents and chunks.
use surreal_knowledge_base.Base.{
  ℕ, ◌+◌, ◌≡◌, refl, sym, ap, ap₂, ◌∙◌, subst, Text, lit, text_eq, List, [], ◌∷◌, ◌++◌, length,
  Option,
}
use surreal_knowledge_base.Error.{
  SkbError, Outcome, ok, err, panic, out_of_fuel, ◌>>=◌, >>=-eq-ok, map_err, checked-eq-ok,
  ok-injective,
}
use surreal_knowledge_base.Error.Action.{settled}
use surreal_knowledge_base.Search.Filter.{fetch}
use surreal_knowledge_base.Database.{statement}
use surreal_knowledge_base.Ingest.Upload.{first_count}
use surreal_knowledge_base.Ingest.Store.{document_record}
use surreal_knowledge_base.Ingest.Store.Tables.{Tables, HasKey}
use surreal_knowledge_base.Ingest.Store.Consistent.{IsConsistent}
use surreal_knowledge_base.Crud.Requests.{DeleteDocumentRequest, validate_id, document_record_id}
use surreal_knowledge_base.Crud.Documents.{
  Documents, DeleteResult, delete_steps, delete_document, first_or_not_found,
}
use surreal_knowledge_base.Crud.Tables.{without, chunks_of, length-split, without-IsConsistent}
use surreal_knowledge_base.Crud.Ids.{document_record_id-key}

-- What the statements see of the tables and do to them.
pub record IsDeleting {F S : Type 0} (view : S → Tables F) (db : Documents S) : Type 0 where
  pub finds :
      (key : Text) (s : S) (row : Unit {0}) (rows : List (Unit {0}))
      → db.lookup (document_record key) s ≡ ok (ok (row ∷ rows))
      → HasKey key (view s).documents
  pub counts :
      (key : Text) (s : S) (rows : List (Option ℕ))
      → db.count_chunks (document_record key) s ≡ ok (ok rows)
      → first_count rows ≡ length (chunks_of key (view s).chunks)
  pub deletes :
      (key : Text) (s t : S)
      → db.delete (document_record key) s ≡ ok (ok t)
      → view t ≡ without key (view s)

-- A document was there and is gone with its chunks, which were counted.
pub record IsDeleted {F : Type 0} (before : Tables F) (id : Text) (r : DeleteResult)
    (after : Tables F) : Type 0 where
  pub key : Text
  pub named : id ≡ lit "document:" ++ key
  pub was_there : HasKey key before.documents
  pub told : r.document_id ≡ id
  pub gone : after ≡ without key before
  pub counted : r.chunks_deleted + length after.chunks ≡ length before.chunks
  pub consistent : IsConsistent after

module _ {F S : Type 0} (view : S → Tables F) (db : Documents S) (laws : IsDeleting view db) where
  -- After a deletion: the document is gone, or the store is as it was.
  abbrev pub IsDeletedOr : S → Text → Outcome SkbError DeleteResult × S → Type 0
  IsDeletedOr s id (ok r, t) = IsDeleted (view s) id r (view t)
  IsDeletedOr s id (err _, t) = t ≡ s
  IsDeletedOr s id (panic, t) = t ≡ s
  IsDeletedOr s id (out_of_fuel, t) = t ≡ s

  found-HasKey :
      (key id : Text) (s : S) (rows : List (Unit {0})) (row : Unit {0})
      → db.lookup (document_record key) s ≡ ok (ok rows)
      → first_or_not_found id rows ≡ ok row
      → HasKey key (view s).documents
  unfolding first_or_not_found
  found-HasKey key id s [] row looked h = absurd (err≢ok h)
    where
      err≢ok : {e : SkbError} → err e ≡ ok row → ⊥
      err≢ok h = cc
  found-HasKey key id s (r ∷ rows) row looked h = laws.finds key s r rows looked

  delete_steps-IsDeleted :
      (id key : Text) (s : S) (r : DeleteResult) (t : S)
      → id ≡ lit "document:" ++ key
      → IsConsistent (view s)
      → delete_steps db id (document_record key) s ≡ ok (r, t)
      → IsDeleted (view s) id r (view t)
  unfolding delete_steps
  delete_steps-IsDeleted id key s r t named c h =
      let document = document_record key in
      let (_, _, h) = >>=-eq-ok (map_err _ (db.begin s)) _ h in
      let (rows, looked, h) = >>=-eq-ok (fetch (lit "delete lookup") (db.lookup document s)) _ h in
      let (row, found, h) = >>=-eq-ok (first_or_not_found id rows) _ h in
      let (counts, counted, h) =
        >>=-eq-ok (fetch (lit "delete count") (db.count_chunks document s)) _ h in
      let (u, deleted, h) = >>=-eq-ok (statement (lit "delete") (db.delete document s)) _ h in
      let (_, _, h) = >>=-eq-ok (map_err _ (db.commit u)) _ h in
      let same = ok-injective h in
      let gone : view t ≡ without key (view s) =
        ap (λ p. view p.1) (sym same)
        ∙ laws.deletes key s u (checked-eq-ok _ _ (db.delete document s) u deleted) in
      record {
        key = key;
        named = named;
        was_there =
            found-HasKey key id s rows row (checked-eq-ok _ _ (db.lookup document s) rows looked)
              found;
        told = ap (λ p. p.0.document_id) (sym same);
        gone = gone;
        counted =
            ap₂ (λ m n. m + length n.chunks)
              (ap (λ p. p.0.chunks_deleted) (sym same)
                ∙ laws.counts key s counts
                    (checked-eq-ok _ _ (db.count_chunks document s) counts counted))
              gone
            ∙ length-split (λ k. text_eq k.document.key key) (view s).chunks;
        consistent = subst IsConsistent (sym gone) (without-IsConsistent key (view s) c);
      }

  settled-IsDeletedOr :
      (s : S) (id : Text) (o : Outcome SkbError (DeleteResult × S))
      → ((r : DeleteResult) (t : S) → o ≡ ok (r, t) → IsDeleted (view s) id r (view t))
      → IsDeletedOr s id (settled s o)
  settled-IsDeletedOr s id (ok (r, t)) done = done r t refl
  settled-IsDeletedOr s id (err e) done = refl
  settled-IsDeletedOr s id panic done = refl
  settled-IsDeletedOr s id out_of_fuel done = refl

  -- A deletion that succeeds removes exactly the document that its id names, which was there, and the
  -- document's chunks, whose number it tells, and the tables stay consistent. One that does not
  -- succeed leaves the store as it was.
  pub delete_document-IsDeletedOr :
      (req : DeleteDocumentRequest) (s : S)
      → IsConsistent (view s)
      → IsDeletedOr s req.id (delete_document db req s)
  unfolding delete_document
  delete_document-IsDeletedOr req s c = settled-IsDeletedOr s req.id _ deleted
    where
      deleted :
          (r : DeleteResult) (t : S)
          → (validate_id req.id >>= λ _.
              document_record_id req.id >>= λ record_id. delete_steps db req.id record_id s)
            ≡ ok (r, t)
          → IsDeleted (view s) req.id r (view t)
      deleted r t h =
          let (_, _, h) = >>=-eq-ok (validate_id req.id) _ h in
          let (record_id, valid, h) = >>=-eq-ok (document_record_id req.id) _ h in
          let (document, named) = document_record_id-key req.id record_id valid in
          delete_steps-IsDeleted req.id record_id.key s r t named c
            (subst (λ x. delete_steps db req.id x s ≡ ok (r, t)) document h)

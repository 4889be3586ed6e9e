-- ===== src/Ingest/Store/Written.antt =====
-- `store_and_index` (crates/skb-core/src/ingest.rs) against the tables: what a run that succeeds has
-- written.

use surreal_knowledge_base.Base.{
  ◌≡◌, refl, sym, ap, subst, ◌∙◌, Text, lit, strip_prefix, Bool, some, List, [], ◌∷◌, ◌++◌, ==_self,
  arith,
}
use surreal_knowledge_base.Error.{ok, >>=-eq-ok, ok-injective}
use surreal_knowledge_base.Tokenize.Chunk.{Chunk}
use surreal_knowledge_base.Graph.Extract.{Patterns}
use surreal_knowledge_base.Graph.Sections.{link_section_hierarchy}
use surreal_knowledge_base.Graph.Sections.Keeps.{link_section_hierarchy-kept}
use surreal_knowledge_base.Ingest.Source.{DocumentData}
use surreal_knowledge_base.Ingest.Store.{
  Transaction, document_record, record_key, zip, document_of, store_chunks, index_chunks,
  store_and_index,
}
use surreal_knowledge_base.Ingest.Store.Steps.{
  ok_or-eq-ok, IsPlaced, document_of-IsStored, store_chunks-add_chunks, index_chunks-view,
}
use surreal_knowledge_base.Ingest.Store.Tables.{Tables, add_chunks, IsTransaction, numbered}

-- What a run has written: the document under a key, and after it all of its chunks, numbered from 0.
pub record IsWritten {F : Type 0} (replace_existing : Bool) (doc : DocumentData)
    (chunks : List Chunk) (embeddings : List F) (doc_id : Text) (before after : Tables F)
    : Type 0 where
  pub key : Text
  pub told : doc_id ≡ lit "document:" ++ key
  pub placed : Tables F
  pub document : IsPlaced replace_existing doc key before placed
  pub written : after ≡ add_chunks (numbered (document_record key) 0 (zip chunks embeddings)) placed

strip_prefix-append : (s t : Text) → strip_prefix s (s ++ t) ≡ some t
unfolding strip_prefix
strip_prefix-append [] t = refl
strip_prefix-append (c ∷ s) t = ground (arith, strip_prefix-append s t, ==_self c)

same_key :
    (doc_id key k : Text) → doc_id ≡ lit "document:" ++ k → record_key doc_id ≡ ok key → key ≡ k
unfolding record_key
same_key doc_id key k told keyed =
    let stripped : strip_prefix (lit "document:") doc_id ≡ some key = ok_or-eq-ok _ _ key keyed in
    some-injective (
      sym stripped
      ∙ ap (strip_prefix (lit "document:")) told
      ∙ strip_prefix-append (lit "document:") k)
  where
    some-injective : {a b : Text} → some a ≡ some b → a ≡ b
    some-injective h = cc

-- A run of the transaction that succeeds, with the document told by its id, has written the document
-- (created under a free key, or replaced under the key of a document with its hash, whose chunks are
-- removed), all the chunks that have embeddings, numbered from 0, and nothing else to the two tables.
pub store_and_index-IsWritten :
    {F G S : Type 0} (view : S → Tables F) (tx : Transaction F G S) (p : Patterns)
    → IsTransaction view tx
    → (doc : DocumentData) (chunks : List Chunk) (embeddings : List F) (replace_existing : Bool)
      (s : S) (r : (Text × List Text) × S)
    → store_and_index tx p doc chunks embeddings replace_existing s ≡ ok r
    → IsWritten replace_existing doc chunks embeddings r.0.0 (view s) (view r.1)
unfolding store_and_index
store_and_index-IsWritten {S = S} view tx p laws doc chunks embeddings replace_existing s r h =
    let ((doc_id, t), stored, h) = >>=-eq-ok (document_of tx replace_existing doc s) _ h in
    let (key, keyed, h) = >>=-eq-ok (record_key doc_id) _ h in
    let ((cids, u), filled, h) =
      >>=-eq-ok (store_chunks tx (document_record key) 0 (zip chunks embeddings) t) _ h in
    let ((names, v), indexed, h) = >>=-eq-ok (index_chunks tx p (zip cids chunks) u) _ h in
    let (x, linked, h) = >>=-eq-ok (link_section_hierarchy tx.exec p doc.content v) _ h in
    let st = document_of-IsStored view tx laws replace_existing doc s (doc_id, t) stored in
    subst (λ y. IsWritten replace_existing doc chunks embeddings y.0.0 (view s) (view y.1))
      (ok-injective h)
      (record {
        key = st.key;
        told = st.told;
        placed = view t;
        document = st.placed;
        written =
            kept_view v x linked
            ∙ index_chunks-view view tx laws p (zip cids chunks) u (names, v) indexed
            ∙ store_chunks-add_chunks view tx laws (document_record key) 0 (zip chunks embeddings) t
                (cids, u) filled
            ∙ ap (λ k. add_chunks (numbered (document_record k) 0 (zip chunks embeddings)) (view t))
                (same_key doc_id key st.key st.told keyed);
      })
  where
    kept_view : (v x : S) → link_section_hierarchy tx.exec p doc.content v ≡ ok x → view x ≡ view v
    kept_view v x linked =
        link_section_hierarchy-kept (λ y. view y ≡ view v) tx.exec
          (record { kept = λ w a b accepted same. laws.execs w a b accepted ∙ same }) p doc.content
          v x linked refl

-- ===== src/Ingest/Store/Consistent.antt =====
-- The invariant of the tables of documents and chunks that the writes in
-- crates/skb-core/src/ingest.rs keep: keys and hashes are distinct, and no chunk lacks its document.
use surreal_knowledge_base.Base.{
  ℕ, ◌+◌, ◌≡◌, refl, sym, ap, ap₂, subst, ◌∙◌, inl, inr, Text, text_eq, text_eq_iff, text_eq_self,
  ◌≢◌, Bool, true, Bool-cases, List, [], ◌∷◌, ◌++◌, map, filter_by, All, All-append, All-map,
}
use surreal_knowledge_base.Tokenize.Chunk.{Chunk}
use surreal_knowledge_base.Ingest.Source.{DocumentData}
use surreal_knowledge_base.Ingest.Store.{document_record}
use surreal_knowledge_base.Ingest.Store.Tables.{
  Document, Tables, add_document, add_chunks, set_document, replaced, HasKey, HasDocument, numbered,
}

abbrev pub Distinct : List Text → Type 0
Distinct [] = Unit
Distinct (x ∷ xs) = All (λ y. y ≢ x) xs × Distinct xs

abbrev keys : List Document → List Text
keys = map (λ d. d.key)

abbrev hashes : List Document → List Text
hashes = map (λ d. d.doc.sha256)

pub record IsConsistent {F : Type 0} (t : Tables F) : Type 0 where
  pub distinct_keys : Distinct (map (λ d. d.key) t.documents)
  pub distinct_hashes : Distinct (map (λ d. d.doc.sha256) t.documents)
  pub no_orphans : All (λ c. HasKey c.document.key t.documents) t.chunks

map_snoc {ℓ} :
    {A B : Type ℓ} (f : A → B) (xs : List A) (x : A)
    → map f (xs ++ (x ∷ [])) ≡ (map f xs ++ (f x ∷ []))
map_snoc f [] x = refl
map_snoc f (y ∷ ys) x = ap (λ zs. f y ∷ zs) (map_snoc f ys x)

Distinct-snoc :
    (xs : List Text) (x : Text) → Distinct xs → All (λ y. y ≢ x) xs → Distinct (xs ++ (x ∷ []))
Distinct-snoc [] x h k = (tt, tt)
Distinct-snoc (y ∷ ys) x (fresh, h) (other, k) =
    (All-append (λ z. z ≢ y) ys (x ∷ []) fresh ((λ e. other (sym e)), tt), Distinct-snoc ys x h k)

keys-All : (key : Text) (ds : List Document) → (HasKey key ds → ⊥) → All (λ y. y ≢ key) (keys ds)
keys-All key [] absent = tt
keys-All key (d ∷ ds) absent = ((λ e. absent (inl e)), keys-All key ds (λ h. absent (inr h)))

hashes-All :
    (sha256 : Text) (ds : List Document)
    → All (λ d. d.doc.sha256 ≢ sha256) ds
    → All (λ y. y ≢ sha256) (hashes ds)
hashes-All sha256 [] h = tt
hashes-All sha256 (d ∷ ds) (p, h) = (p, hashes-All sha256 ds h)

HasKey-snoc :
    (key : Text) (ds : List Document) (d : Document) → HasKey key ds → HasKey key (ds ++ (d ∷ []))
HasKey-snoc key [] d h = absurd h
HasKey-snoc key (e ∷ ds) d (inl h) = inl h
HasKey-snoc key (e ∷ ds) d (inr h) = inr (HasKey-snoc key ds d h)

HasKey-last : (ds : List Document) (d : Document) → HasKey d.key (ds ++ (d ∷ []))
HasKey-last [] d = inl refl
HasKey-last (e ∷ ds) d = inr (HasKey-last ds d)

pub HasDocument-HasKey :
    (key sha256 : Text) (ds : List Document) → HasDocument key sha256 ds → HasKey key ds
HasDocument-HasKey key sha256 [] h = absurd h
HasDocument-HasKey key sha256 (d ∷ ds) (inl h) = inl h.0
HasDocument-HasKey key sha256 (d ∷ ds) (inr h) = inr (HasDocument-HasKey key sha256 ds h)

HasKey-absurd : (key : Text) (ds : List Document) → All (λ y. y ≢ key) (keys ds) → HasKey key ds → ⊥
HasKey-absurd key [] _ h = h
HasKey-absurd key (d ∷ ds) (other, rest) (inl h) = other h
HasKey-absurd key (d ∷ ds) (other, rest) (inr h) = HasKey-absurd key ds rest h

keys-set_document :
    (key : Text) (doc : DocumentData) (ds : List Document)
    → keys (set_document key doc ds) ≡ keys ds
keys-set_document key doc [] = refl
keys-set_document key doc (d ∷ ds) = elim (Bool-cases (text_eq d.key key)) [
  | inl e ↦
      rw e (ap₂ (λ x xs. x ∷ xs) (sym ((text_eq_iff d.key key).0 e)) (keys-set_document key doc ds))
  | inr e ↦ rw e (ap (λ xs. d.key ∷ xs) (keys-set_document key doc ds))
]

hashes-set_absent :
    (key : Text) (doc : DocumentData) (ds : List Document)
    → All (λ y. y ≢ key) (keys ds)
    → hashes (set_document key doc ds) ≡ hashes ds
hashes-set_absent key doc [] h = refl
hashes-set_absent key doc (d ∷ ds) (other, h) = elim (Bool-cases (text_eq d.key key)) [
  | inl e ↦ absurd (other ((text_eq_iff d.key key).0 e))
  | inr e ↦ rw e (ap (λ xs. d.doc.sha256 ∷ xs) (hashes-set_absent key doc ds h))
]

hashes-set_document :
    (key : Text) (doc : DocumentData) (ds : List Document)
    → Distinct (keys ds)
    → HasDocument key doc.sha256 ds
    → hashes (set_document key doc ds) ≡ hashes ds
hashes-set_document key doc [] _ h = absurd h
hashes-set_document key doc (d ∷ ds) (fresh, distinct) (inl (same, hash)) =
    rw (subst (λ k. text_eq d.key k ≡ true) same (text_eq_self d.key)) (
      ap₂ (λ x xs. x ∷ xs) (sym hash)
        (hashes-set_absent key doc ds (subst (λ k. All (λ y. y ≢ k) (keys ds)) same fresh)))
hashes-set_document key doc (d ∷ ds) (fresh, distinct) (inr h) =
    elim (Bool-cases (text_eq d.key key)) [
      | inl e ↦
          let same = (text_eq_iff d.key key).0 e in
          absurd (
            HasKey-absurd key ds (subst (λ k. All (λ y. y ≢ k) (keys ds)) same fresh)
              (HasDocument-HasKey key doc.sha256 ds h))
      | inr e ↦ rw e (ap (λ xs. d.doc.sha256 ∷ xs) (hashes-set_document key doc ds distinct h))
    ]

HasKey-set_document :
    (k key : Text) (doc : DocumentData) (ds : List Document)
    → HasKey k ds
    → HasKey k (set_document key doc ds)
HasKey-set_document k key doc [] h = h
HasKey-set_document k key doc (d ∷ ds) (inl h) = elim (Bool-cases (text_eq d.key key)) [
  | inl e ↦ rw e (inl (sym ((text_eq_iff d.key key).0 e) ∙ h))
  | inr e ↦ rw e (inl h)
]
HasKey-set_document k key doc (d ∷ ds) (inr h) = inr (HasKey-set_document k key doc ds h)

numbered-All :
    {F : Type 0} (key : Text) (i : ℕ) (chunks : List (Chunk × F))
    → All (λ c. c.document.key ≡ key) (numbered (document_record key) i chunks)
numbered-All key i [] = tt
numbered-All key i ((chunk, embedding) ∷ chunks) = (refl, numbered-All key (i + 1) chunks)

pub filter_by-All :
    {A : Type 0} (P : A → Type 0) (keep : A → Bool) (xs : List A)
    → All P xs
    → All P (filter_by keep xs)
filter_by-All P keep [] h = tt
filter_by-All P keep (x ∷ xs) (p, h) = elim (Bool-cases (keep x)) [
  | inl e ↦ rw e (p, filter_by-All P keep xs h)
  | inr e ↦ rw e (filter_by-All P keep xs h)
]

module _ {F : Type 0} where
  -- A new document under a free key, with a hash that no other has.
  pub add_document-IsConsistent :
      (key : Text) (doc : DocumentData) (t : Tables F)
      → IsConsistent t
      → (HasKey key t.documents → ⊥)
      → All (λ d. d.doc.sha256 ≢ doc.sha256) t.documents
      → IsConsistent (add_document key doc t)
  add_document-IsConsistent key doc t c fresh new = record {
    distinct_keys =
        subst Distinct (sym (map_snoc (λ d. d.key) t.documents _))
          (Distinct-snoc (keys t.documents) key c.distinct_keys (keys-All key t.documents fresh));
    distinct_hashes = subst Distinct (sym (map_snoc (λ d. d.doc.sha256) t.documents _)) (
        Distinct-snoc (hashes t.documents) doc.sha256 c.distinct_hashes
          (hashes-All doc.sha256 t.documents new));
    no_orphans = All-map (λ k h. HasKey-snoc k.document.key t.documents _ h) t.chunks c.no_orphans;
  }

  -- The update of the document that has the key and the hash, without its chunks.
  pub replaced-IsConsistent :
      (key : Text) (doc : DocumentData) (t : Tables F)
      → IsConsistent t
      → HasDocument key doc.sha256 t.documents
      → IsConsistent (replaced key doc t)
  replaced-IsConsistent key doc t c present = record {
    distinct_keys = subst Distinct (sym (keys-set_document key doc t.documents)) c.distinct_keys;
    distinct_hashes =
        subst Distinct (sym (hashes-set_document key doc t.documents c.distinct_keys present))
          c.distinct_hashes;
    no_orphans =
        All-map (λ k h. HasKey-set_document k.document.key key doc t.documents h) _
          (filter_by-All _ _ t.chunks c.no_orphans);
  }

  -- Chunks of a document that is there.
  pub add_chunks-IsConsistent :
      (key : Text) (chunks : List (Chunk × F)) (t : Tables F)
      → IsConsistent t
      → HasKey key t.documents
      → IsConsistent (add_chunks (numbered (document_record key) 0 chunks) t)
  add_chunks-IsConsistent key chunks t c present = record {
    distinct_keys = c.distinct_keys;
    distinct_hashes = c.distinct_hashes;
    no_orphans = All-append _ t.chunks _ c.no_orphans (
        All-map (λ k e. subst (λ x. HasKey x t.documents) (sym e) present) _
          (numbered-All key 0 chunks));
  }

  pub HasKey-added :
      (key : Text) (doc : DocumentData) (t : Tables F)
      → HasKey key (add_document key doc t).documents
  HasKey-added key doc t = HasKey-last t.documents (record { key = key; doc = doc })

  pub HasKey-replaced :
      (key : Text) (doc : DocumentData) (t : Tables F)
      → HasDocument key doc.sha256 t.documents
      → HasKey key (replaced key doc t).documents
  HasKey-replaced key doc t h =
      HasKey-set_document key key doc t.documents (HasDocument-HasKey key doc.sha256 t.documents h)

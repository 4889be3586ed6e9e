-- ===== src/Crud/Tables.antt =====
-- The tables of documents and chunks without a document (crates/skb-core/src/crud.rs).
use surreal_knowledge_base.Base.{
  ◌+◌, ◌≡◌, ◌≢◌, refl, sym, subst, inl, inr, Text, text_eq, Bool, false, not, Bool-cases, List, [],
  ◌∷◌, map, length, filter_by, All, arith,
}
use surreal_knowledge_base.Ingest.Store.{NewChunk}
use surreal_knowledge_base.Ingest.Store.Tables.{Document, Tables, HasKey, without_chunks}
use surreal_knowledge_base.Ingest.Store.Consistent.{Distinct, IsConsistent}

-- `DELETE $id`
abbrev pub without_document : Text → List Document → List Document
without_document key docs = filter_by (λ d. not (text_eq d.key key)) docs

-- The tables without a document, with its chunks.
abbrev pub without : {F : Type 0} → Text → Tables F → Tables F
without key t = record {
  documents = without_document key t.documents;
  chunks = without_chunks key t.chunks;
}

abbrev pub chunks_of : {F : Type 0} → Text → List (NewChunk F) → List (NewChunk F)
chunks_of key chunks = filter_by (λ c. text_eq c.document.key key) chunks

pub length-split {ℓ} :
    {A : Type ℓ} (p : A → Bool) (xs : List A)
    → length (filter_by p xs) + length (filter_by (λ x. not (p x)) xs) ≡ length xs
length-split p [] = refl
length-split p (x ∷ xs) = elim (Bool-cases (p x)) [
  | inl e ↦ rw e (omega (arith, length-split p xs))
  | inr e ↦ rw e (omega (arith, length-split p xs))
]

map-All :
    {A : Type 0} (P : Text → Type 0) (f : A → Text) (keep : A → Bool) (xs : List A)
    → All P (map f xs)
    → All P (map f (filter_by keep xs))
map-All P f keep [] h = tt
map-All P f keep (x ∷ xs) (p, h) = elim (Bool-cases (keep x)) [
  | inl e ↦ rw e (p, map-All P f keep xs h)
  | inr e ↦ rw e (map-All P f keep xs h)
]

Distinct-filter_by :
    {A : Type 0} (f : A → Text) (keep : A → Bool) (xs : List A)
    → Distinct (map f xs)
    → Distinct (map f (filter_by keep xs))
Distinct-filter_by f keep [] h = tt
Distinct-filter_by f keep (x ∷ xs) (fresh, h) = elim (Bool-cases (keep x)) [
  | inl e ↦ rw e (map-All (λ y. y ≢ f x) f keep xs fresh, Distinct-filter_by f keep xs h)
  | inr e ↦ rw e (Distinct-filter_by f keep xs h)
]

-- Another document stays.
HasKey-without :
    (k key : Text) (ds : List Document)
    → text_eq k key ≡ false
    → HasKey k ds
    → HasKey k (without_document key ds)
HasKey-without k key [] other h = absurd h
HasKey-without k key (d ∷ ds) other (inl h) =
    rw (subst (λ x. text_eq x key ≡ false) (sym h) other) (inl h)
HasKey-without k key (d ∷ ds) other (inr h) = elim (Bool-cases (text_eq d.key key)) [
  | inl e ↦ rw e (HasKey-without k key ds other h)
  | inr e ↦ rw e (inr (HasKey-without k key ds other h))
]

kept_chunks :
    {F : Type 0} (key : Text) (ds : List Document) (chunks : List (NewChunk F))
    → All (λ c. HasKey c.document.key ds) chunks
    → All (λ c. HasKey c.document.key (without_document key ds)) (without_chunks key chunks)
kept_chunks key ds [] h = tt
kept_chunks key ds (c ∷ chunks) (p, h) = elim (Bool-cases (text_eq c.document.key key)) [
  | inl e ↦ rw e (kept_chunks key ds chunks h)
  | inr e ↦ rw e (HasKey-without c.document.key key ds e p, kept_chunks key ds chunks h)
]

pub without-IsConsistent :
    {F : Type 0} (key : Text) (t : Tables F) → IsConsistent t → IsConsistent (without key t)
without-IsConsistent key t c = record {
  distinct_keys = Distinct-filter_by (λ d. d.key) _ t.documents c.distinct_keys;
  distinct_hashes = Distinct-filter_by (λ d. d.doc.sha256) _ t.documents c.distinct_hashes;
  no_orphans = kept_chunks key t.documents t.chunks c.no_orphans;
}

-- ===== src/Ingest/Store/Tables.antt =====
-- The tables that an upload (crates/skb-core/src/ingest.rs) changes, as its statements say, and what a
-- transaction of the database promises about them.
use surreal_knowledge_base.Base.{
  ℕ, ◌+◌, ◌≡◌, ◌⊎◌, Text, lit, text_eq, not, some, List, [], ◌∷◌, ◌++◌, filter_by, if◌then◌else◌,
}
use surreal_knowledge_base.Error.{Outcome, ok}
use surreal_knowledge_base.Tokenize.Chunk.{Chunk}
use surreal_knowledge_base.Graph.Ids.{RecordId}
use surreal_knowledge_base.Graph.Index.{Statement}
use surreal_knowledge_base.Graph.Sections.{Write}
use surreal_knowledge_base.Ingest.Source.{DocumentData}
use surreal_knowledge_base.Ingest.Store.{NewChunk, Rows, Transaction, first_id, document_record}

-- A document with its key.
pub record Document : Type 0 where
  pub key : Text
  pub doc : DocumentData

pub record Tables (F : Type 0) : Type 0 where
  pub documents : List Document
  pub chunks : List (NewChunk F)

-- `CREATE document SET …`
abbrev pub add_document : {F : Type 0} → Text → DocumentData → Tables F → Tables F
add_document key doc t = record t {
  documents = t.documents ++ (record { key = key; doc = doc } ∷ []);
}

-- `CREATE chunk SET …`
abbrev pub add_chunk : {F : Type 0} → NewChunk F → Tables F → Tables F
add_chunk chunk t = record t { chunks = t.chunks ++ (chunk ∷ []) }

abbrev pub set_document : Text → DocumentData → List Document → List Document
set_document key doc [] = []
set_document key doc (d ∷ ds) =
    (if text_eq d.key key then record { key = key; doc = doc } else d) ∷ set_document key doc ds

-- `DELETE FROM chunk WHERE document = $document`
abbrev pub without_chunks : {F : Type 0} → Text → List (NewChunk F) → List (NewChunk F)
without_chunks key chunks = filter_by (λ c. not (text_eq c.document.key key)) chunks

-- `UPDATE $document SET …; …; DELETE FROM chunk WHERE document = $document`
abbrev pub replaced : {F : Type 0} → Text → DocumentData → Tables F → Tables F
replaced key doc t = record {
  documents = set_document key doc t.documents;
  chunks = without_chunks key t.chunks;
}

abbrev pub HasKey : Text → List Document → Type 0
HasKey key [] = ⊥
HasKey key (d ∷ ds) = (d.key ≡ key) ⊎ HasKey key ds

-- A document with a key and a hash is there.
abbrev pub HasDocument : Text → Text → List Document → Type 0
HasDocument key sha256 [] = ⊥
HasDocument key sha256 (d ∷ ds) =
    ((d.key ≡ key) × (d.doc.sha256 ≡ sha256)) ⊎ HasDocument key sha256 ds

-- A document was created under a key that was free, and the row tells its id.
pub record IsCreated {F : Type 0} (doc : DocumentData) (id : Text) (before after : Tables F)
    : Type 0 where
  pub key : Text
  pub fresh : HasKey key before.documents → ⊥
  pub told : id ≡ lit "document:" ++ key
  pub added : after ≡ add_document key doc before

-- What the statements do to the tables, of which a state is seen through `view`.
pub record IsTransaction {F G S : Type 0} (view : S → Tables F) (tx : Transaction F G S)
    : Type 0 where
  pub found :
      (sha256 : Text) (s : S) (rows : Rows) (key : Text)
      → tx.ids_by_sha sha256 s ≡ ok (ok (ok rows))
      → first_id rows ≡ some key
      → HasDocument key sha256 (view s).documents
  pub replaces :
      (key : Text) (doc : DocumentData) (s t : S)
      → tx.replace (document_record key) doc s ≡ ok (ok t)
      → view t ≡ replaced key doc (view s)
  pub creates_document :
      (doc : DocumentData) (s t : S) (rows : Rows) (id : Text)
      → tx.create_document doc s ≡ ok (ok (ok rows, t))
      → first_id rows ≡ some id
      → IsCreated doc id (view s) (view t)
  pub creates_chunk :
      (chunk : NewChunk F) (s t : S) (rows : Outcome Text Rows)
      → tx.create_chunk chunk s ≡ ok (ok (rows, t))
      → view t ≡ add_chunk chunk (view s)
  pub runs : (w : Statement G) (s t : S) → tx.run w s ≡ ok (ok t) → view t ≡ view s
  pub execs : (w : Write) (s t : S) → tx.exec w s ≡ ok (ok t) → view t ≡ view s

-- The rows of a document's chunks, numbered from a place on.
abbrev pub numbered : {F : Type 0} → RecordId → ℕ → List (Chunk × F) → List (NewChunk F)
numbered document i [] = []
numbered document i ((chunk, embedding) ∷ chunks) =
    record {
      document = document;
      idx = i;
      content = chunk.content;
      token_count = chunk.token_count;
      embedding = embedding;
      heading = chunk.heading;
    }
    ∷ numbered document (i + 1) chunks

abbrev pub add_chunks : {F : Type 0} → List (NewChunk F) → Tables F → Tables F
add_chunks chunks t = record t { chunks = t.chunks ++ chunks }

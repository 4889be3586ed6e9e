-- ===== src/Tests/Upload.antt =====
-- Uploads into tables kept in memory (crates/skb-core/src/ingest.rs).
use surreal_knowledge_base.Ingest.Source.{is_prefix}
use surreal_knowledge_base.Ingest.Document.{validate_upload}
use surreal_knowledge_base.Ingest.Source.{validate_path, extract_from_bytes}
use surreal_knowledge_base.Ingest.Size.{check_size}
use surreal_knowledge_base.Base.{
  starts_with, split, split_once, byte_len, contains, trim_start, is_whitespace,
}
use surreal_knowledge_base.Ingest.Text.{mime_for, extract_text_with_mime}
use surreal_knowledge_base.Ingest.Embed.{embed_batch}
use surreal_knowledge_base.Ingest.Store.{store_and_index}
use surreal_knowledge_base.Graph.Extract.{
  extract_entities, dedup_entities, collected_entities, heading_lines, extract_sections,
}
use surreal_knowledge_base.Graph.Frontmatter.{frontmatter_list, frontmatter_body}
use surreal_knowledge_base.Tokenize.Headings.{heading_starts, is_heading_line}
use surreal_knowledge_base.Graph.Sections.{link_sections}
use surreal_knowledge_base.Base.Sort.{dedup, sort_by}
use surreal_knowledge_base.Base.{
  ℕ, suc, ◌<◌, ◌≡◌, ◌≢◌, refl, sym, ap, ◌∙◌, inl, inr, Bool-cases, Text, text_eq, text_eq_iff, lit,
  none, some, List, [], ◌∷◌, ◌++◌, All, arith, map, length, length-append, false≢true,
  if◌then◌else◌,
}
use surreal_knowledge_base.Error.{SkbError, Outcome, ok, ok-injective}
use surreal_knowledge_base.Config.{Config, default_config}
use surreal_knowledge_base.Tokenize.Chunk.{Chunk}
use surreal_knowledge_base.Graph.Ids.{RecordId}
use surreal_knowledge_base.Graph.Extract.{Patterns}
use surreal_knowledge_base.Ingest.Source.{Machine, UploadRequest, DocumentData, elapsed}
use surreal_knowledge_base.Ingest.Store.{Transaction, Rows, first_id}
use surreal_knowledge_base.Ingest.Store.Tables.{
  Document, Tables, IsTransaction, HasKey, HasDocument, add_document, add_chunk, replaced,
}
use surreal_knowledge_base.Ingest.Store.Consistent.{IsConsistent}
use surreal_knowledge_base.Ingest.Upload.{Database, first_count, upload}
use surreal_knowledge_base.Ingest.Upload.Written.{IsUpload, upload-IsUpload}
use surreal_knowledge_base.Ingest.Upload.Consistent.{IsCounting, upload-IsConsistent}
use surreal_knowledge_base.Ingest.Document.Checked.{IsExtracted, extract_document_data-IsExtracted}
use surreal_knowledge_base.Ingest.Document.{extract_document_data}
use surreal_knowledge_base.Tests.Search.{ascii}
use surreal_knowledge_base.Tests.Fetch.{network, config}

-- The keys of the documents that have a hash.
abbrev with_hash : Text → List Document → Rows
with_hash sha256 [] = []
with_hash sha256 (d ∷ ds) =
    let rest = with_hash sha256 ds in
    if text_eq d.doc.sha256 sha256 then some d.key ∷ rest else rest

-- A key longer than any that is there.
abbrev free_key : List Document → Text
free_key [] = b'k' ∷ []
free_key (d ∷ ds) = b'k' ∷ (d.key ++ free_key ds)

HasKey-shorter :
    (key : Text) (ds : List Document) → HasKey key ds → length key < length (free_key ds)
HasKey-shorter key [] h = absurd h
HasKey-shorter key (d ∷ ds) (inl h) = omega (arith, length-append d.key (free_key ds), ap length h)
HasKey-shorter key (d ∷ ds) (inr h) =
    omega (arith, length-append d.key (free_key ds), HasKey-shorter key ds h)

free_key-absent : (ds : List Document) → HasKey (free_key ds) ds → ⊥
free_key-absent ds h = omega (arith, HasKey-shorter (free_key ds) ds h)

some-injective : {a b : Text} → some a ≡ some b → a ≡ b
some-injective h = cc

with_hash-HasDocument :
    (sha256 : Text) (ds : List Document) (key : Text)
    → first_id (with_hash sha256 ds) ≡ some key
    → HasDocument key sha256 ds
with_hash-HasDocument sha256 [] key h = cc
with_hash-HasDocument sha256 (d ∷ ds) key h = elim (Bool-cases (text_eq d.doc.sha256 sha256)) [
  | inl e ↦ inl (some-injective (rw e at h), (text_eq_iff d.doc.sha256 sha256).0 e)
  | inr e ↦ inr (with_hash-HasDocument sha256 ds key (rw e at h))
]

abbrev chunk_1 : RecordId
chunk_1 = record { table = lit "chunk"; key = lit "1" }

abbrev in_memory : Transaction ℕ ℕ (Tables ℕ)
in_memory = record {
  ids_by_sha = λ sha256 t. ok (ok (ok (with_hash sha256 t.documents)));
  replace = λ id doc t. ok (ok (replaced id.key doc t));
  create_document = λ doc t.
      let key = free_key t.documents in
      ok (ok (ok (some (lit "document:" ++ key) ∷ []), add_document key doc t));
  create_chunk = λ chunk t. ok (ok (ok (some (lit "chunk:1") ∷ []), add_chunk chunk t));
  run = λ w t. ok (ok t);
  exec = λ w t. ok (ok t);
  parse = λ t. ok chunk_1;
}

in_memory-IsTransaction : IsTransaction (λ t. t) in_memory
in_memory-IsTransaction = record {
  found = λ sha256 s rows key asked first.
      with_hash-HasDocument sha256 s.documents key
        (ap first_id (ok-injective (ok-injective (ok-injective asked))) ∙ first);
  replaces = λ key doc s t done. sym (ok-injective (ok-injective done));
  creates_document = λ doc s t rows id done first.
      let e = ok-injective (ok-injective done) in
      record {
        key = free_key s.documents;
        fresh = free_key-absent s.documents;
        told = sym (some-injective (ap first_id (ok-injective (ap (λ x. x.0) e)) ∙ first));
        added = sym (ap (λ x. x.1) e);
      };
  creates_chunk = λ chunk s t rows done. sym (ap (λ x. x.1) (ok-injective (ok-injective done)));
  runs = λ w s t done. sym (ok-injective (ok-injective done));
  execs = λ w s t done. sym (ok-injective (ok-injective done));
}

with_hash-count :
    (sha256 : Text) (ds : List Document)
    → length (with_hash sha256 ds) ≡ 0
    → All (λ d. d.doc.sha256 ≢ sha256) ds
with_hash-count sha256 [] h = tt
with_hash-count sha256 (d ∷ ds) h = elim (Bool-cases (text_eq d.doc.sha256 sha256)) [
  | inl e ↦ absurd (zero≢suc (rw e at h))
  | inr e ↦ (
    (λ same. false≢true (sym e ∙ (text_eq_iff d.doc.sha256 sha256).1 same)),
    with_hash-count sha256 ds (rw e at h),
  )
]
  where
    zero≢suc : {n : ℕ} → suc n ≡ 0 → ⊥
    zero≢suc h = omega (arith, h)

abbrev database : Database ℕ ℕ (Tables ℕ)
database = record {
  count_by_sha = λ sha256 t. ok (ok (some (length (with_hash sha256 t.documents)) ∷ []));
  begin = λ t. ok tt;
  transaction = in_memory;
  commit = λ t. ok tt;
}

database-IsCounting : IsCounting (λ t. t) database
database-IsCounting = record {
  counts = λ sha256 s rows asked none_there.
      with_hash-count sha256 s.documents
        (ap first_count (ok-injective (ok-injective asked)) ∙ none_there);
}

abbrev machine : Machine
machine = record {
  unicode = ascii;
  network = network;
  canonicalize = λ path. ok path;
  file_size = λ path. ok 2;
  read_file = λ path. ok (104 ∷ 105 ∷ []);
  join_read = ok tt;
  join_fetch = ok tt;
  decoded_len_estimate = λ n. n;
  base64_decode = λ t. ok t;
  pdf = record {
    parse_slot = λ n. elapsed;
    extract_slot = λ n. elapsed;
    load = λ n b. elapsed;
    extract = λ n b. elapsed;
    after_load = 0;
    after_slot = 0;
  };
  sha256 = λ b. b;
}

-- One chunk for the whole text.
abbrev one_chunk : Text → ℕ → ℕ → Outcome SkbError (List Chunk)
one_chunk t n k = ok (record { content = t; token_count = 2; idx = 0; heading = none } ∷ [])

abbrev embed_lengths : List Text → Outcome SkbError (List ℕ)
embed_lengths texts = ok (map length texts)

abbrev pub patterns : Patterns
patterns = record { links = λ t. []; wiki_links = λ t. []; tags = λ t. []; heading = λ t. none }

abbrev file_request : UploadRequest
file_request = record {
  path = some (lit "/notes/hi.txt");
  url = none;
  content = none;
  content_base64 = none;
  title = none;
  tags = none;
  metadata = none;
  force = none;
}

abbrev no_tables : Tables ℕ
no_tables = record { documents = []; chunks = [] }

upload_test :
    (upload database machine one_chunk embed_lengths patterns config file_request no_tables).0
    ≡ ok (record {
      document_id = some (lit "document:k");
      title = lit "hi.txt";
      status = lit "created";
      chunks = 1;
      tokens = 2;
      sha256 = lit "6869";
      entities = [];
    })
unfolding upload lit validate_upload extract_document_data validate_path default_config check_size
    extract_from_bytes starts_with mime_for split text_eq split_once byte_len extract_text_with_mime
    contains embed_batch store_and_index extract_entities dedup_entities collected_entities
    frontmatter_list frontmatter_body heading_lines heading_starts trim_start is_whitespace
    is_heading_line link_sections extract_sections dedup sort_by
upload_test = refl

upload-IsUpload_example :
    IsUpload
      (λ t. t)
      database
      machine
      one_chunk
      embed_lengths
      patterns
      config
      file_request
      no_tables
      (upload database machine one_chunk embed_lengths patterns config file_request no_tables)
upload-IsUpload_example =
    upload-IsUpload (λ t. t) database machine one_chunk embed_lengths patterns config
      in_memory-IsTransaction file_request no_tables

upload-IsConsistent_example :
    IsConsistent
      (upload database machine one_chunk embed_lengths patterns config file_request no_tables).1
upload-IsConsistent_example =
    upload-IsConsistent (λ t. t) database machine one_chunk embed_lengths patterns config
      in_memory-IsTransaction database-IsCounting file_request no_tables
      (record { distinct_keys = tt; distinct_hashes = tt; no_orphans = tt })

abbrev notes_only : Config
notes_only = record config { upload = record { max_file_mb = 1; allowed_dirs = lit "/notes" ∷ [] } }

abbrev pub hi_document : DocumentData
hi_document = record {
  title = lit "hi.txt";
  source = lit "/notes/hi.txt";
  source_type = lit "file";
  content = lit "hi";
  sha256 = lit "6869";
  tags = [];
  metadata = [];
  mime = some (lit "text/plain");
}

hi_extracted : extract_document_data machine notes_only file_request ≡ ok hi_document
unfolding extract_document_data lit validate_path is_prefix split text_eq check_size
    extract_from_bytes starts_with mime_for split_once byte_len extract_text_with_mime contains
hi_extracted = refl

extract_document_data-IsExtracted_example : IsExtracted machine notes_only file_request hi_document
extract_document_data-IsExtracted_example =
    extract_document_data-IsExtracted machine notes_only file_request hi_document hi_extracted

-- ===== src/Ingest/Source.antt =====
-- `extract_document_data` of crates/skb-core/src/ingest.rs and what it calls: the allowed directories,
-- base64, PDF and text input. The file system, the network, the decoders, the PDF libraries, their time
-- limits and the hash are parameters.
use surreal_knowledge_base.Base.{
  ℕ, ◌-◌, Text, lit, show, text_eq, byte_len, is_whitespace, is_empty, split, Bool, true, false,
  not, ◌||◌, ◌&&◌, ◌==◌, ltb, starts_with, Option, none, some, List, [], ◌∷◌, ◌++◌, length,
  filter_by, if◌then◌else◌,
}
use surreal_knowledge_base.Error.{
  ErrorCode, SkbError, skb_error, Outcome, ok, err, ◌>>=◌, ◌>>◌, map_err,
}
use surreal_knowledge_base.Config.{Config, invalid, reject_if}
use surreal_knowledge_base.Search.Hits.{unwrap_or}
use surreal_knowledge_base.Search.Terms.{Unicode}
use surreal_knowledge_base.Ingest.Text.{extract_text_with_mime}
use surreal_knowledge_base.Ingest.Size.{check_size}
use surreal_knowledge_base.Ingest.Fetch.{Bytes, Network}
use surreal_knowledge_base.Ingest.Utf8.{from_utf8}

pub record UploadRequest : Type 0 where
  pub path : Option Text
  pub url : Option Text
  pub content : Option Text
  pub content_base64 : Option Text
  pub title : Option Text
  pub tags : Option (List Text)
  pub metadata : Option (List (Text × Text))
  pub force : Option Bool

pub record DocumentData : Type 0 where
  pub title : Text
  pub source : Text
  pub source_type : Text
  pub content : Text
  pub sha256 : Text
  pub tags : List Text
  pub metadata : List (Text × Text)
  pub mime : Option Text

-- A future under `tokio::time::timeout`.
pub data Timed (A : Type 0) : Type 0 where
  in_time : A → Timed A
  elapsed : Timed A

-- The PDF side: a slot, the parser and the extractor on a blocking thread that can fail to join.
pub record PdfTools : Type 0 where
  -- A slot for a job, within a time in seconds.
  pub parse_slot : ℕ → Timed (Outcome Text (Unit {0}))
  pub extract_slot : ℕ → Timed (Outcome Text (Unit {0}))
  -- The number of pages.
  pub load : ℕ → Bytes → Timed (Outcome Text (Outcome Text ℕ))
  pub extract : ℕ → Bytes → Timed (Outcome Text (Outcome Text Text))
  -- The seconds since the start, when the slot is asked for, and when the job starts.
  pub after_load : ℕ
  pub after_slot : ℕ

pub record Machine : Type 0 where
  pub unicode : Unicode
  pub network : Network
  pub canonicalize : Text → Outcome Text Text
  pub file_size : Text → Outcome Text ℕ
  pub read_file : Text → Outcome Text Bytes
  -- Whether the blocking threads of a read and of a fetch can be joined.
  pub join_read : Outcome Text (Unit {0})
  pub join_fetch : Outcome Text (Unit {0})
  pub decoded_len_estimate : ℕ → ℕ
  pub base64_decode : Text → Outcome Text Bytes
  pub pdf : PdfTools
  pub sha256 : Bytes → Bytes

abbrev pub max_pdf_pages : ℕ
max_pdf_pages = 200

abbrev pub max_process_seconds : ℕ
max_process_seconds = 30

abbrev pub io_err : Text → Text → SkbError
io_err label m = skb_error ErrorCode.io (label ++ lit ": " ++ m)

-- `.map_err(|_| …)?` on a timeout, where what has run in time goes on.
abbrev pub timely : {A : Type 0} → Text → Timed A → Outcome SkbError A
timely m (in_time a) = ok a
timely m elapsed = invalid m

-- The steps of an absolute path.
abbrev steps : Text → List Text
steps path = filter_by (λ s. not (is_empty s)) (split (λ c. c == b'/') path)

unfoldable pub is_prefix : List Text → List Text → Bool
is_prefix [] path = true
is_prefix (_ ∷ _) [] = false
is_prefix (d ∷ dir) (p ∷ path) = text_eq d p && is_prefix dir path

-- `Path::starts_with`: step by step, not character by character.
abbrev pub path_starts_with : Text → Text → Bool
path_starts_with dir path = is_prefix (steps dir) (steps path)

-- `is_pdf_bytes`
abbrev pub is_pdf_bytes : Bytes → Bool
is_pdf_bytes bytes = starts_with (lit "%PDF-") bytes

abbrev is_pdf_hint : Option Text → Bool
is_pdf_hint none = false
is_pdf_hint (some mime) = text_eq mime (lit "application/pdf")

module _ (m : Machine) where
  -- The loop over the allowed directories.
  unfoldable pub find_allowed : Text → List Text → Outcome SkbError Text
  find_allowed canonical [] = invalid (lit "path not in allowed directories: " ++ canonical)
  find_allowed canonical (dir ∷ dirs) =
      let rest = find_allowed canonical dirs in
      do
        can_dir ← map_err (io_err (lit "resolve allowed dir")) (m.canonicalize dir)
        if path_starts_with can_dir canonical then ok canonical else rest

  unfoldable pub allowed_in : Text → List Text → Outcome SkbError Text
  allowed_in canonical [] = ok canonical
  allowed_in canonical (dir ∷ dirs) = find_allowed canonical (dir ∷ dirs)

  -- `validate_path`
  unfoldable pub validate_path : Text → Config → Outcome SkbError Text
  unfolding allowed_in find_allowed
  validate_path path config = do
    canonical ← map_err (io_err (lit "resolve path")) (m.canonicalize path)
    allowed_in canonical config.upload.allowed_dirs

  -- `base64_decode_checked`
  unfoldable pub base64_decode_checked : Text → Config → Outcome SkbError Bytes
  base64_decode_checked b64 config =
      let compact = filter_by (λ c. not (is_whitespace c)) b64 in
      do
        check_size (m.decoded_len_estimate (byte_len compact)) config
        bytes ←
            map_err (λ e. skb_error ErrorCode.validation (lit "base64: " ++ e))
              (m.base64_decode compact)
        check_size (length bytes) config
        ok bytes

  -- `extract_pdf_checked`
  unfoldable pub extract_pdf_checked : Bytes → Outcome SkbError Text
  extract_pdf_checked bytes = do
    slot ←
        timely (lit "pdf semaphore wait exceeded time limit") (m.pdf.parse_slot max_process_seconds)
    map_err (λ e. skb_error ErrorCode.db (lit "pdf semaphore: " ++ e)) slot
    joined ← timely (lit "pdf parsing exceeded time limit") (m.pdf.load max_process_seconds bytes)
    loaded ← map_err (io_err (lit "pdf parse join")) joined
    pages ← map_err (io_err (lit "pdf parse")) loaded
    reject_if (ltb max_pdf_pages pages)
        (lit "pdf has " ++ show pages ++ lit " pages, limit is " ++ show max_pdf_pages)
    slot ←
        timely (lit "pdf semaphore wait exceeded time limit")
          (m.pdf.extract_slot (max_process_seconds - m.pdf.after_load))
    map_err (λ e. skb_error ErrorCode.db (lit "pdf semaphore: " ++ e)) slot
    joined ←
        timely (lit "pdf extraction exceeded time limit")
          (m.pdf.extract (max_process_seconds - m.pdf.after_slot) bytes)
    extracted ← map_err (io_err (lit "pdf extract join")) joined
    map_err (io_err (lit "pdf extract")) extracted

  text_of : Bytes → Text → Option Text → Option Text → Outcome SkbError (Text × Option Text)
  text_of bytes source mime_hint none = err (
      skb_error ErrorCode.unsupported_format
        (lit "binary input is not a supported format (text, markdown, html, pdf)"))
  text_of bytes source mime_hint (some text) = ok (
    extract_text_with_mime m.unicode text source mime_hint,
    some (unwrap_or (lit "text/plain") mime_hint),
  )

  pdf_text : Bytes → Outcome SkbError (Text × Option Text)
  pdf_text bytes = do text ← extract_pdf_checked bytes; ok (text, some (lit "application/pdf"))

  -- `extract_from_bytes`
  unfoldable pub extract_from_bytes :
      Bytes → Text → Option Text → Config → Outcome SkbError (Text × Option Text)
  unfolding pdf_text text_of from_utf8
  extract_from_bytes bytes source mime_hint config = do
    check_size (length bytes) config
    if is_pdf_bytes bytes || is_pdf_hint mime_hint
        then pdf_text bytes
        else text_of bytes source mime_hint (from_utf8 bytes)

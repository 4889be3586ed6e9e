-- ===== src/Ingest/Document.antt =====
-- `extract_document_data` of crates/skb-core/src/ingest.rs: from a request to the document that is
-- stored.
pub mod Checked
use surreal_knowledge_base.Base.{
  ℕ, zero, suc, ◌-◌, ◌+◌, ◌/◌, ◌%◌, Text, lit, byte_len, ltb, Option, none, some, [], ◌∷◌,
  if◌then◌else◌,
}
use surreal_knowledge_base.Error.{SkbError, Outcome, ok, ◌>>=◌, ◌>>◌, map_err}
use surreal_knowledge_base.Config.{Config, invalid}
use surreal_knowledge_base.Search.Hits.{unwrap_or}
use surreal_knowledge_base.Ingest.Text.{file_name, mime_for, extract_text_with_mime}
use surreal_knowledge_base.Ingest.Size.{check_size}
use surreal_knowledge_base.Ingest.Fetch.{Bytes, fetch_url}
use surreal_knowledge_base.Ingest.Utf8.{encode}
use surreal_knowledge_base.Ingest.Source.{
  Machine, UploadRequest, DocumentData, io_err, validate_path, base64_decode_checked,
  extract_from_bytes,
}

-- `UploadRequest::validate`
abbrev present : Option Text → ℕ
present none = 0
present (some _) = 1

check_sources : ℕ → Outcome SkbError (Unit {0})
check_sources zero = invalid (lit "one of path, url, content, content_base64 is required")
check_sources (suc zero) = ok tt
check_sources (suc (suc _)) =
    invalid (lit "only one of path, url, content, content_base64 may be specified")

unfoldable pub validate_upload : UploadRequest → Outcome SkbError (Unit {0})
unfolding check_sources
validate_upload req =
    check_sources
      (present req.path + present req.url + present req.content + present req.content_base64)

pub data RawInput : Type 0 where
  text : Text → RawInput
  bytes : Bytes → RawInput

-- The input with where it comes from, its kind, a title for it and a type, if the server told one.
pub record Input : Type 0 where
  pub raw : RawInput
  pub source : Text
  pub source_type : Text
  pub file_title : Text
  pub content_type_hint : Option Text

hex_digit : ℕ → ℕ
hex_digit d = if ltb d 10 then b'0' + d else b'a' + (d - 10)

-- `{b:02x}` of every byte.
unfoldable pub hex : Bytes → Text
unfolding hex_digit
hex [] = []
hex (b ∷ bs) = hex_digit (b / 16) ∷ hex_digit (b % 16) ∷ hex bs

or_else : Option Text → Option Text → Option Text
or_else none o = o
or_else (some t) o = some t

and_then : Option Text → (Text → Option Text) → Option Text
and_then none f = none
and_then (some t) f = f t

module _ (m : Machine) (config : Config) where
  read_path : Text → Outcome SkbError Bytes
  read_path path = do
    canonical ← validate_path m path config
    size ← map_err (io_err (lit "stat file")) (m.file_size canonical)
    check_size size config
    map_err (io_err (lit "read file")) (m.read_file canonical)

  input_of_path : Text → Outcome SkbError Input
  unfolding read_path
  input_of_path path = do
    map_err (io_err (lit "file read join")) m.join_read
    read ← read_path path
    ok (record {
      raw = bytes read;
      source = path;
      source_type = lit "file";
      file_title = unwrap_or (lit "untitled") (file_name path);
      content_type_hint = none;
    })

  input_of_url : Text → Outcome SkbError Input
  input_of_url url = do
    map_err (io_err (lit "url fetch join")) m.join_fetch
    (body, content_type) ← (fetch_url m.network url config).1
    ok (record {
      raw = bytes body;
      source = url;
      source_type = lit "url";
      file_title = url;
      content_type_hint = content_type;
    })

  input_of_content : Text → Outcome SkbError Input
  input_of_content content = do
    check_size (byte_len content) config
    ok (record {
      raw = text content;
      source = lit "inline";
      source_type = lit "text";
      file_title = lit "untitled";
      content_type_hint = none;
    })

  input_of_base64 : Text → Outcome SkbError Input
  input_of_base64 b64 = do
    decoded ← base64_decode_checked m b64 config
    ok (record {
      raw = bytes decoded;
      source = lit "base64";
      source_type = lit "text";
      file_title = lit "untitled";
      content_type_hint = none;
    })

  input_by : Option Text → Option Text → Option Text → Option Text → Outcome SkbError Input
  unfolding input_of_path input_of_url input_of_content input_of_base64
  input_by (some path) _ _ _ = input_of_path path
  input_by none (some url) _ _ = input_of_url url
  input_by none none (some content) _ = input_of_content content
  input_by none none none (some b64) = input_of_base64 b64
  input_by none none none none =
      invalid (lit "one of path, url, content, content_base64 is required")

  -- The first source that the request has, in the order of the code.
  unfoldable pub read_input : UploadRequest → Outcome SkbError Input
  unfolding input_by
  read_input req = input_by req.path req.url req.content req.content_base64

  unfoldable pub mime_hint : UploadRequest → Input → Option Text
  unfolding or_else and_then
  mime_hint req input = or_else (mime_for m.unicode input.source) (
      or_else (and_then req.title (mime_for m.unicode))
        (or_else (mime_for m.unicode input.file_title) input.content_type_hint))

  extract_raw : Text → Option Text → RawInput → Outcome SkbError (Text × Option Text)
  extract_raw source hint (text t) = do
    check_size (byte_len t) config
    ok (extract_text_with_mime m.unicode t source hint, hint)
  extract_raw source hint (bytes bs) = extract_from_bytes m bs source hint config

  -- `extract_document_data`
  unfoldable pub extract_document_data : UploadRequest → Outcome SkbError DocumentData
  unfolding read_input mime_hint extract_raw hex encode
  extract_document_data req = do
    input ← read_input req
    (content, mime) ← extract_raw input.source (mime_hint req input) input.raw
    check_size (byte_len content) config
    ok (record {
      title = unwrap_or input.file_title req.title;
      source = input.source;
      source_type = input.source_type;
      content = content;
      sha256 = hex (m.sha256 (encode content));
      tags = unwrap_or [] req.tags;
      metadata = unwrap_or [] req.metadata;
      mime = mime;
    })

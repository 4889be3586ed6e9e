-- ===== src/Ingest/Document/Checked.antt =====
-- What the checks of crates/skb-core/src/ingest.rs ensure of a path and of a document.
use surreal_knowledge_base.Base.{
  ◌≤◌, ◌≡◌, refl, subst, Text, lit, byte_len, Bool-cases, inl, inr, ◌⊎◌, Option, none, some, List,
  [], ◌∷◌, OnSome, true, sym,
}
use surreal_knowledge_base.Error.{ok, map_err, map_err-eq-ok, >>=-eq-ok, ok-injective}
use surreal_knowledge_base.Config.{Config}
use surreal_knowledge_base.Ingest.Size.{check_size, check_size-eq-ok_iff, max_upload_bytes}
use surreal_knowledge_base.Ingest.Utf8.{encode}
use surreal_knowledge_base.Ingest.Source.{
  Machine, io_err, path_starts_with, find_allowed, allowed_in, validate_path,
}
use surreal_knowledge_base.Ingest.Source.{UploadRequest, DocumentData}
use surreal_knowledge_base.Ingest.Document.{
  Input, read_input, input_by, input_of_path, read_path, extract_raw, extract_document_data, hex,
  mime_hint,
}

-- Some directory of a list resolves to one that the path lies in, step by step.
abbrev pub IsBelow : Machine → Text → List Text → Type 0
IsBelow m canonical [] = ⊥
IsBelow m canonical (dir ∷ dirs) =
    ((can_dir : Text) × (m.canonicalize dir ≡ ok can_dir)
      × (path_starts_with can_dir canonical ≡ true))
    ⊎ IsBelow m canonical dirs

-- A path that may be read: resolved, and below an allowed directory where there are any.
pub record IsAllowed (m : Machine) (config : Config) (path canonical : Text) : Type 0 where
  pub resolved : m.canonicalize path ≡ ok canonical
  pub below : (config.upload.allowed_dirs ≡ []) ⊎ IsBelow m canonical config.upload.allowed_dirs

module _ (m : Machine) where
  find_allowed-IsBelow :
      (canonical : Text) (dirs : List Text) (found : Text)
      → find_allowed m canonical dirs ≡ ok found
      → (found ≡ canonical) × IsBelow m canonical dirs
  unfolding find_allowed
  find_allowed-IsBelow canonical [] found h = cc
  find_allowed-IsBelow canonical (dir ∷ dirs) found h =
      let (can_dir, resolved, h) =
        >>=-eq-ok (map_err (io_err (lit "resolve allowed dir")) (m.canonicalize dir)) _ h in
      elim (Bool-cases (path_starts_with can_dir canonical)) [
        | inl e ↦ (
          sym (ok-injective (rw e at h)),
          inl (can_dir, map_err-eq-ok _ (m.canonicalize dir) can_dir resolved, e),
        )
        | inr e ↦
            let (same, below) = find_allowed-IsBelow canonical dirs found (rw e at h) in
            (same, inr below)
      ]

  allowed_in-IsBelow :
      (canonical : Text) (dirs : List Text) (found : Text)
      → allowed_in m canonical dirs ≡ ok found
      → (found ≡ canonical) × ((dirs ≡ []) ⊎ IsBelow m canonical dirs)
  unfolding allowed_in
  allowed_in-IsBelow canonical [] found h = (sym (ok-injective h), inl refl)
  allowed_in-IsBelow canonical (dir ∷ dirs) found h =
      let (same, below) = find_allowed-IsBelow canonical (dir ∷ dirs) found h in (same, inr below)

  validate_path-IsAllowed :
      (path : Text) (config : Config) (found : Text)
      → validate_path m path config ≡ ok found
      → IsAllowed m config path found
  unfolding validate_path
  validate_path-IsAllowed path config found h =
      let (canonical, resolved, h) =
        >>=-eq-ok (map_err (io_err (lit "resolve path")) (m.canonicalize path)) _ h in
      let (same, below) = allowed_in-IsBelow canonical config.upload.allowed_dirs found h in
      subst (IsAllowed m config path) (sym same) (record {
        resolved = map_err-eq-ok _ (m.canonicalize path) canonical resolved;
        below = below;
      })

  -- A document as it is stored.
  pub record IsExtracted (config : Config) (req : UploadRequest) (doc : DocumentData) : Type 0 where
    pub within : byte_len doc.content ≤ max_upload_bytes config
    pub hashed : doc.sha256 ≡ hex (m.sha256 (encode doc.content))
    pub allowed : OnSome (λ path. (canonical : Text) × IsAllowed m config path canonical) req.path

  input_by-IsAllowed :
      (config : Config) (path url content b64 : Option Text) (input : Input)
      → input_by m config path url content b64 ≡ ok input
      → OnSome (λ path. (canonical : Text) × IsAllowed m config path canonical) path
  unfolding input_by input_of_path read_path
  input_by-IsAllowed config none url content b64 input h = tt
  input_by-IsAllowed config (some path) url content b64 input h =
      let (_, _, h) = >>=-eq-ok (map_err (io_err (lit "file read join")) m.join_read) _ h in
      let (_, read, h) = >>=-eq-ok (read_path m config path) _ h in
      let (canonical, valid, read) = >>=-eq-ok (validate_path m path config) _ read in
      (canonical, validate_path-IsAllowed path config canonical valid)

  -- A document that is extracted has a content within the size limit and the hash of that content; and
  -- if the request names a path, then it was resolved, and it lies below an allowed directory, if any
  -- are configured.
  pub extract_document_data-IsExtracted :
      (config : Config) (req : UploadRequest) (doc : DocumentData)
      → extract_document_data m config req ≡ ok doc
      → IsExtracted config req doc
  unfolding extract_document_data read_input
  extract_document_data-IsExtracted config req doc h =
      let (input, found, h) =
        >>=-eq-ok (input_by m config req.path req.url req.content req.content_base64) _ h in
      let ((content, mime), extracted, h) =
        >>=-eq-ok (extract_raw m config input.source (mime_hint m config req input) input.raw) _
          h in
      let (_, fits, h) = >>=-eq-ok (check_size (byte_len content) config) _ h in
      subst (IsExtracted config req) (ok-injective h) (record {
        within = (check_size-eq-ok_iff (byte_len content) config).0 fits;
        hashed = refl;
        allowed =
            input_by-IsAllowed config req.path req.url req.content req.content_base64 input found;
      })

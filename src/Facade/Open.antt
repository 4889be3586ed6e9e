-- ===== src/Facade/Open.antt =====
-- `KnowledgeBase::open` and `open_for_reindex` of crates/skb-core/src/lib.rs: what is compared with the
-- stored metadata before a store is used.
pub mod Accepted
use surreal_knowledge_base.Base.{
  ℕ, Text, lit, show, text_eq, is_empty, Bool, true, false, Option, none, some, [], ◌++◌,
  if◌then◌else◌,
}
use surreal_knowledge_base.Error.{
  ErrorCode, SkbError, skb_error, Outcome, ok, err, ◌>>=◌, ◌>>◌, map_err,
}
use surreal_knowledge_base.Error.Action.{Action, ◌▸◌, ◌⨾◌, return, of_outcome, reading, writing}
use surreal_knowledge_base.Config.{Config, EmbeddingConfig, resolve_embedding_settings}
use surreal_knowledge_base.Search.Filter.{db_error}
use surreal_knowledge_base.Database.{Statements, get_meta, set_meta, is_new_database, migrate}
use surreal_knowledge_base.Database.Open.{Engine, open_db}
use surreal_knowledge_base.Facade.Fingerprint.{
  Json, Hashing, TokenizerMeta, parse_hf_model, tokenizer_source_for, tokenizer_fingerprint,
  sync_tokenizer_meta,
}

abbrev pub schema_version : Text
schema_version = lit "1"

-- What `Embed` tells of a model.
pub record Model : Type 0 where
  pub dimension : ℕ
  pub max_input_tokens : ℕ

-- `MockEmbedder`, as it is made here.
abbrev pub mock_model : Model
mock_model = record { dimension = 8; max_input_tokens = 8192 }

pub record Host : Type 0 where
  pub engine : Engine
  -- The client of the model hub, and the download of a tokenizer by owner and name.
  pub hub_client : Outcome Text (Unit {0})
  pub download : Text → Text → Outcome Text Text
  -- `TokenizersImpl::from_path` with its `config_json`.
  pub load_tokenizer : Text → Outcome SkbError (Outcome SkbError Json)
  -- `OrtEmbedder::load`, if the feature is built.
  pub load_ort : Option (EmbeddingConfig → Outcome SkbError Model)
  pub hashing : Hashing

-- The statements of a transaction: begin and commit can fail, and the writes are those of the store.
pub record Transactions (S : Type 0) : Type 0 where
  pub begin : S → Outcome Text (Unit {0})
  pub commit : S → Outcome Text (Unit {0})

tokenize_error : Text → Text → SkbError
tokenize_error label m = skb_error ErrorCode.tokenize (label ++ lit ": " ++ m)

download_tokenizer : Host → Text → Outcome SkbError Text
unfolding tokenize_error parse_hf_model
download_tokenizer h model = do
  map_err (tokenize_error (lit "hf-hub client")) h.hub_client
  let (owner, name) = parse_hf_model model
  map_err (tokenize_error (lit "download tokenizer")) (h.download owner name)

-- `resolve_tokenizer_path`
unfoldable pub resolve_tokenizer_path : Host → Config → Outcome SkbError Text
unfolding download_tokenizer
resolve_tokenizer_path h config =
    if text_eq config.embedding.tokenizer (lit "auto")
    then download_tokenizer h config.embedding.model
    else ok config.embedding.tokenizer

load_model :
    Option (EmbeddingConfig → Outcome SkbError Model) → EmbeddingConfig → Outcome SkbError Model
load_model none config = err (
    skb_error ErrorCode.embedding (
      lit
        "OrtEmbedder requires the 'ort' feature. Build with: cargo build --features ort\nOr use onnx_path = \"mock\" for testing"))
load_model (some load) config = load config

-- The parts before the store is read: the tokenizer's configuration, the model, and the configuration
-- resolved against it.
pub record Parts : Type 0 where
  pub tokenizer_json : Outcome SkbError Json
  pub model : Model
  pub config : Config

unfoldable pub load_parts : Host → Config → Outcome SkbError Parts
unfolding resolve_tokenizer_path load_model
load_parts h config = do
  open_db h.engine config
  path ← resolve_tokenizer_path h config
  json ← h.load_tokenizer path
  model ←
      if text_eq config.embedding.onnx_path (lit "mock")
      then ok mock_model
      else load_model h.load_ort config.embedding
  resolved ← resolve_embedding_settings config model.dimension model.max_input_tokens
  ok (record { tokenizer_json = json; model = model; config = resolved })

mismatch : {A : Type 0} → Text → Outcome SkbError A
mismatch m = err (skb_error ErrorCode.model_mismatch m)

unfoldable pub check_marker : Option Text → Outcome SkbError (Unit {0})
unfolding mismatch
check_marker none = ok tt
check_marker (some v) =
    if is_empty v
    then ok tt
    else mismatch
        (lit "a reindex is in progress or was interrupted; run `skb reindex` to complete it")

unfoldable pub check_model : Config → Option Text → Outcome SkbError (Unit {0})
unfolding mismatch
check_model config none =
    mismatch (lit "existing store has no embedding_model metadata. Run reindex to rebuild.")
check_model config (some stored) =
    if text_eq stored config.embedding.model
    then ok tt
    else mismatch (
        lit "config: '"
        ++ config.embedding.model
        ++ lit "', stored: '"
        ++ stored
        ++ lit "'. Run reindex to switch models.")

module _ {S : Type 0} (db : Statements S) where
  -- A stored value has to be the expected one; a missing one is filled in.
  unfoldable pub check_value : Text → Text → Text → Option Text → Action S (Unit {0})
  unfolding mismatch
  check_value key label expected none = writing (set_meta db key expected)
  check_value key label expected (some stored) =
      if text_eq stored expected
      then return tt
      else of_outcome (
          mismatch
            (label ++ expected ++ lit "', stored: '" ++ stored ++ lit "'. Run reindex to rebuild."))

  marker_step : Action S (Unit {0})
  unfolding check_marker
  marker_step =
      reading (get_meta db (lit "reindex_in_progress"))
      ▸ (λ marker. of_outcome (check_marker marker))

  model_step : Config → Action S (Unit {0})
  unfolding check_model
  model_step config =
      reading (get_meta db (lit "embedding_model"))
      ▸ (λ stored. of_outcome (check_model config stored))

  dimension_step : ℕ → Action S (Unit {0})
  unfolding check_value
  dimension_step dimension =
      reading (get_meta db (lit "embedding_dimension"))
      ▸ check_value (lit "embedding_dimension") (lit "config dimension: '") (show dimension)

  input_step : Config → Action S (Unit {0})
  unfolding check_value
  input_step config =
      reading (get_meta db (lit "embedding_max_input_tokens"))
      ▸ check_value (lit "embedding_max_input_tokens") (lit "config max_input_tokens: '")
          (show config.embedding.max_input_tokens)

  -- The comparison with the metadata of a store that exists.
  unfoldable pub compare_stored : Config → ℕ → Action S (Unit {0})
  unfolding marker_step model_step dimension_step input_step
  compare_stored config dimension =
      marker_step ⨾ (model_step config ⨾ (dimension_step dimension ⨾ input_step config))

  -- The metadata of a new store, in one transaction.
  unfoldable pub write_metadata : Transactions S → Config → ℕ → S → Outcome SkbError S
  write_metadata tx config dimension s = do
    map_err (db_error (lit "init meta begin")) (tx.begin s)
    s ← set_meta db (lit "embedding_model") config.embedding.model s
    s ← set_meta db (lit "embedding_dimension") (show dimension) s
    s ← set_meta db (lit "embedding_max_input_tokens") (show config.embedding.max_input_tokens) s
    s ← set_meta db (lit "schema_version") schema_version s
    map_err (db_error (lit "init meta commit")) (tx.commit s)
    ok s

  unfoldable pub prepare_store : Transactions S → Config → ℕ → Bool → Bool → Action S (Unit {0})
  unfolding compare_stored write_metadata
  prepare_store tx config dimension true allow_mismatch =
      migrate db dimension ⨾ writing (write_metadata tx config dimension)
  prepare_store tx config dimension false true = migrate db dimension
  prepare_store tx config dimension false false =
      compare_stored config dimension ⨾ migrate db dimension

  check_tokenizer : Config → Bool → Text → TokenizerMeta → Action S (Unit {0})
  unfolding sync_tokenizer_meta
  check_tokenizer config true source meta = return tt
  check_tokenizer config false source meta = sync_tokenizer_meta db config source meta

  fingerprint_of : Host → Parts → Outcome SkbError TokenizerMeta
  unfolding tokenizer_fingerprint
  fingerprint_of h parts = do
    json ← parts.tokenizer_json
    tokenizer_fingerprint h.hashing (tokenizer_source_for parts.config) json

  prepare_step : Transactions S → Bool → Parts → Action S (Unit {0})
  unfolding prepare_store
  prepare_step tx allow_mismatch parts =
      reading (is_new_database db)
      ▸ (λ is_new. prepare_store tx parts.config parts.model.dimension is_new allow_mismatch)

  tokenizer_step : Host → Bool → Parts → Action S (Unit {0})
  unfolding check_tokenizer fingerprint_of
  tokenizer_step h allow_mismatch parts =
      of_outcome (fingerprint_of h parts)
      ▸ check_tokenizer parts.config allow_mismatch (tokenizer_source_for parts.config)

  unfoldable pub open_parts : Host → Transactions S → Bool → Parts → Action S Parts
  unfolding prepare_step tokenizer_step
  open_parts h tx allow_mismatch parts =
      prepare_step tx allow_mismatch parts ⨾ (tokenizer_step h allow_mismatch parts ⨾ return parts)

  -- `open_inner`
  unfoldable pub open_inner : Host → Transactions S → Config → Bool → Action S Parts
  unfolding load_parts open_parts
  open_inner h tx config allow_mismatch =
      of_outcome (load_parts h config) ▸ open_parts h tx allow_mismatch

  -- `open`
  unfoldable pub open_store : Host → Transactions S → Config → Action S Parts
  unfolding open_inner
  open_store h tx config = open_inner h tx config false

  -- `open_for_reindex`
  unfoldable pub open_for_reindex : Host → Transactions S → Config → Action S Parts
  unfolding open_inner
  open_for_reindex h tx config = open_inner h tx config true

-- ===== src/Config/Env.antt =====
-- Loading in crates/skb-core/src/config.rs: `SKB_*` variables over the file's configuration. The
-- process environment, the file system and the TOML parser are parameters (`Host`).
pub mod Fields
pub mod Statements
pub mod StorageParts
pub mod Parts
pub mod Precedence
use surreal_knowledge_base.Base.{
  ℕ, Text, lit, trim, split, String, Option, none, some, List, [], ◌∷◌, ◌++◌, ◌==◌, Bool, true,
  false, map, filter_by, not, is_empty, if◌then◌else◌,
}
use surreal_knowledge_base.Error.{
  ErrorCode, SkbError, skb_error, AnyError, skb, other, context, Outcome, ok, err, ◌>>=◌, map_err,
}
use surreal_knowledge_base.Config.{Config, join, default_config}
use surreal_knowledge_base.Config.Parse.{
  ParseIntError, show_error, parse_unsigned, parse_search_mode, parse_storage_mode,
}

-- The result of `std::env::var`.
pub data Var : Type 0 where
  present : Text → Var
  not_present not_unicode : Var

abbrev pub Env : Type 0
Env = String → Var

-- `env_opt`
unfoldable pub env_opt : Env → String → Outcome SkbError (Option Text)
env_opt env key = elim (env key) [
  | present v ↦ ok (some v)
  | not_present ↦ ok none
  | not_unicode ↦ err (skb_error ErrorCode.config (lit key ++ lit " must be unicode"))
]

parse_var : String → Option Text → Outcome SkbError (Option ℕ)
parse_var key none = ok none
parse_var key (some v) =
    map_err
      (λ e.
        skb_error ErrorCode.config
          (lit key ++ lit " must be a number, got '" ++ v ++ lit "': " ++ show_error e))
      (do n ← parse_unsigned v; ok (some n))

-- `env_parse`, at the unsigned 64-bit types of the numeric fields.
unfoldable pub env_parse : Env → String → Outcome SkbError (Option ℕ)
unfolding parse_var
env_parse env key = env_opt env key >>= parse_var key

-- `if let Some(v) = found? { ... }`: the fields that follow, over what the statement wrote.
abbrev pub overlay {ℓ} :
    {A : Type ℓ}
    → Outcome SkbError (Option A)
    → (A → Config → Outcome AnyError Config)
    → Config
    → Outcome AnyError Config
overlay found write c = do v ← map_err skb found; elim v [ none ↦ ok c | some a ↦ write a c ]

-- A statement whose body is one assignment.
abbrev pub assign {ℓ} :
    {A : Type ℓ}
    → Outcome SkbError (Option A)
    → (A → Config → Config)
    → Config
    → Outcome AnyError Config
assign found put = overlay found (λ a c. ok (put a c))

abbrev quoted : Text → Text → Text
quoted m v = m ++ lit ", got '" ++ v ++ lit "'"

unfoldable pub set_storage_mode : Text → Config → Outcome AnyError Config
set_storage_mode v c = do
  m ←
      map_err (λ e. context (quoted (lit "SKB_STORAGE_MODE invalid") v) (skb e))
        (parse_storage_mode v)
  ok (record c { storage = record c.storage { mode = m } })

unfoldable pub set_default_mode : Text → Config → Outcome AnyError Config
set_default_mode v c = do
  m ←
      map_err (λ e. context (quoted (lit "SKB_SEARCH_DEFAULT_MODE invalid") v) (skb e))
        (parse_search_mode v)
  ok (record c { search = record c.search { default_mode = m } })

-- The entries of a comma-separated list, trimmed, without the empty ones.
unfoldable pub listed_dirs : Text → List Text
listed_dirs v = filter_by (λ p. not (is_empty p)) (map trim (split (λ ch. ch == b',') v))

-- Entries that are all empty would silently lift the restriction, so they are refused.
use_dirs : Text → List Text → Config → Outcome AnyError Config
use_dirs v [] c =
    err (other (quoted (lit "SKB_UPLOAD_ALLOWED_DIRS must list at least one directory") v))
use_dirs v (d ∷ ds) c = ok (record c { upload = record c.upload { allowed_dirs = d ∷ ds } })

unfoldable pub set_allowed_dirs : Text → Config → Outcome AnyError Config
unfolding use_dirs
set_allowed_dirs v c = use_dirs v (listed_dirs v) c

-- `Config::apply_env_overrides`, the first statements on the storage.
override_location : Env → Config → Outcome AnyError Config
override_location env c = do
  c ←
      assign (env_opt env "SKB_STORAGE_PATH")
        (λ v c. record c { storage = record c.storage { path = v } }) c
  c ← overlay (env_opt env "SKB_STORAGE_MODE") set_storage_mode c
  assign (env_opt env "SKB_STORAGE_URL")
      (λ v c. record c { storage = record c.storage { url = some v } }) c

-- `Config::apply_env_overrides`, the statements on the storage credentials.
override_credentials : Env → Config → Outcome AnyError Config
override_credentials env c = do
  c ←
      assign (env_opt env "SKB_STORAGE_USERNAME")
        (λ v c. record c { storage = record c.storage { username = some v } }) c
  assign (env_opt env "SKB_STORAGE_PASSWORD")
      (λ v c. record c { storage = record c.storage { password = some v } }) c

-- `Config::apply_env_overrides`, the statements on the database names.
override_database : Env → Config → Outcome AnyError Config
override_database env c = do
  c ←
      assign (env_opt env "SKB_STORAGE_NAMESPACE")
        (λ v c. record c { storage = record c.storage { namespace = v } }) c
  assign (env_opt env "SKB_STORAGE_DATABASE")
      (λ v c. record c { storage = record c.storage { database = v } }) c

pub override_storage : Env → Config → Outcome AnyError Config
unfolding override_location override_credentials override_database
override_storage env c = do
  c ← override_location env c
  c ← override_credentials env c
  override_database env c

-- `Config::apply_env_overrides`, the first statements on the embedding.
override_model : Env → Config → Outcome AnyError Config
override_model env c = do
  c ←
      assign (env_opt env "SKB_EMBEDDING_MODEL")
        (λ v c. record c { embedding = record c.embedding { model = v } }) c
  c ←
      assign (env_opt env "SKB_EMBEDDING_ONNX_PATH")
        (λ v c. record c { embedding = record c.embedding { onnx_path = v } }) c
  assign (env_opt env "SKB_EMBEDDING_TOKENIZER")
      (λ v c. record c { embedding = record c.embedding { tokenizer = v } }) c

-- `Config::apply_env_overrides`, the later statements on the embedding.
override_sizes : Env → Config → Outcome AnyError Config
override_sizes env c = do
  c ←
      assign (env_parse env "SKB_EMBEDDING_DIMENSION")
        (λ v c. record c { embedding = record c.embedding { dimension = v } }) c
  c ←
      assign (env_parse env "SKB_EMBEDDING_MAX_INPUT_TOKENS")
        (λ v c. record c { embedding = record c.embedding { max_input_tokens = v } }) c
  c ←
      assign (env_opt env "SKB_EMBEDDING_DEVICE")
        (λ v c. record c { embedding = record c.embedding { device = v } }) c
  assign (env_parse env "SKB_EMBEDDING_BATCH_SIZE")
      (λ v c. record c { embedding = record c.embedding { batch_size = v } }) c

pub override_embedding : Env → Config → Outcome AnyError Config
unfolding override_model override_sizes
override_embedding env c = do c ← override_model env c; override_sizes env c

-- `Config::apply_env_overrides`, the statements on the chunking.
pub override_chunking : Env → Config → Outcome AnyError Config
override_chunking env c = do
  c ←
      assign (env_parse env "SKB_CHUNKING_MAX_TOKENS")
        (λ v c. record c { chunking = record c.chunking { max_tokens = v } }) c
  assign (env_parse env "SKB_CHUNKING_OVERLAP_TOKENS")
      (λ v c. record c { chunking = record c.chunking { overlap_tokens = v } }) c

-- `Config::apply_env_overrides`, the statements on the search.
pub override_search : Env → Config → Outcome AnyError Config
override_search env c = do
  c ← overlay (env_opt env "SKB_SEARCH_DEFAULT_MODE") set_default_mode c
  c ←
      assign (env_parse env "SKB_SEARCH_TOP_K")
        (λ v c. record c { search = record c.search { top_k = v } }) c
  assign (env_parse env "SKB_SEARCH_RRF_K")
      (λ v c. record c { search = record c.search { rrf_k = v } }) c

-- `Config::apply_env_overrides`, the statements on uploads.
pub override_upload : Env → Config → Outcome AnyError Config
override_upload env c = do
  c ←
      assign (env_parse env "SKB_UPLOAD_MAX_FILE_MB")
        (λ v c. record c { upload = record c.upload { max_file_mb = v } }) c
  overlay (env_opt env "SKB_UPLOAD_ALLOWED_DIRS") set_allowed_dirs c

-- `Config::apply_env_overrides`: its statements in their order.
unfoldable pub apply_env_overrides : Env → Config → Outcome AnyError Config
unfolding override_storage override_embedding override_chunking override_search override_upload
apply_env_overrides env c = do
  c ← override_storage env c
  c ← override_embedding env c
  c ← override_chunking env c
  c ← override_search env c
  override_upload env c

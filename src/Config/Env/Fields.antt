-- ===== src/Config/Env/Fields.antt =====
-- What it means that the environment is laid over a configuration, field by field
-- (crates/skb-core/src/config.rs).
use surreal_knowledge_base.Base.{ℕ, Text, String, Option, some, List, ◌≡◌, ◌≢◌, ◌⊎◌, []}
use surreal_knowledge_base.Error.{ok}
use surreal_knowledge_base.Config.{
  Config, StorageMode, SearchMode, StorageConfig, EmbeddingConfig, ChunkingConfig, SearchConfig,
  UploadConfig,
}
use surreal_knowledge_base.Config.Parse.{parse_unsigned, parse_search_mode, parse_storage_mode}
use surreal_knowledge_base.Config.Env.{Env, present, not_present, listed_dirs}

module _ {A : Type 0} (env : Env) (key : String) where
  -- The value of a field under a variable that is read by `Reads`: what the variable says if it is
  -- set, and the value from the file if it is not.
  abbrev pub Overlaid : (Text → A → Type 0) → A → A → Type 0
  Overlaid Reads old v =
      ((t : Text) × (env key ≡ present t) × Reads t v) ⊎ ((env key ≡ not_present) × (v ≡ old))

abbrev pub IsText : Text → Text → Type 0
IsText t v = v ≡ t

abbrev pub IsSome : Text → Option Text → Type 0
IsSome t v = v ≡ some t

abbrev pub IsNumber : Text → ℕ → Type 0
IsNumber t n = parse_unsigned t ≡ ok n

abbrev pub IsStorageMode : Text → StorageMode → Type 0
IsStorageMode t m = parse_storage_mode t ≡ ok m

abbrev pub IsSearchMode : Text → SearchMode → Type 0
IsSearchMode t m = parse_search_mode t ≡ ok m

abbrev pub IsDirs : Text → List Text → Type 0
IsDirs t ds = (ds ≡ listed_dirs t) × (ds ≢ [])

-- Every field of the storage part.
pub record IsStorageOverlaid (env : Env) (old new : StorageConfig) : Type 0 where
  pub path : Overlaid env "SKB_STORAGE_PATH" IsText old.path new.path
  pub mode : Overlaid env "SKB_STORAGE_MODE" IsStorageMode old.mode new.mode
  pub url : Overlaid env "SKB_STORAGE_URL" IsSome old.url new.url
  pub username : Overlaid env "SKB_STORAGE_USERNAME" IsSome old.username new.username
  pub password : Overlaid env "SKB_STORAGE_PASSWORD" IsSome old.password new.password
  pub namespace : Overlaid env "SKB_STORAGE_NAMESPACE" IsText old.namespace new.namespace
  pub database : Overlaid env "SKB_STORAGE_DATABASE" IsText old.database new.database

-- Every field of the embedding part.
pub record IsEmbeddingOverlaid (env : Env) (old new : EmbeddingConfig) : Type 0 where
  pub model : Overlaid env "SKB_EMBEDDING_MODEL" IsText old.model new.model
  pub onnx_path : Overlaid env "SKB_EMBEDDING_ONNX_PATH" IsText old.onnx_path new.onnx_path
  pub tokenizer : Overlaid env "SKB_EMBEDDING_TOKENIZER" IsText old.tokenizer new.tokenizer
  pub dimension : Overlaid env "SKB_EMBEDDING_DIMENSION" IsNumber old.dimension new.dimension
  pub max_input_tokens :
      Overlaid env "SKB_EMBEDDING_MAX_INPUT_TOKENS" IsNumber old.max_input_tokens
        new.max_input_tokens
  pub device : Overlaid env "SKB_EMBEDDING_DEVICE" IsText old.device new.device
  pub batch_size : Overlaid env "SKB_EMBEDDING_BATCH_SIZE" IsNumber old.batch_size new.batch_size

-- Every field of the chunking part.
pub record IsChunkingOverlaid (env : Env) (old new : ChunkingConfig) : Type 0 where
  pub max_tokens : Overlaid env "SKB_CHUNKING_MAX_TOKENS" IsNumber old.max_tokens new.max_tokens
  pub overlap_tokens :
      Overlaid env "SKB_CHUNKING_OVERLAP_TOKENS" IsNumber old.overlap_tokens new.overlap_tokens

-- Every field of the search part.
pub record IsSearchOverlaid (env : Env) (old new : SearchConfig) : Type 0 where
  pub default_mode :
      Overlaid env "SKB_SEARCH_DEFAULT_MODE" IsSearchMode old.default_mode new.default_mode
  pub top_k : Overlaid env "SKB_SEARCH_TOP_K" IsNumber old.top_k new.top_k
  pub rrf_k : Overlaid env "SKB_SEARCH_RRF_K" IsNumber old.rrf_k new.rrf_k

-- Every field of the upload part.
pub record IsUploadOverlaid (env : Env) (old new : UploadConfig) : Type 0 where
  pub max_file_mb : Overlaid env "SKB_UPLOAD_MAX_FILE_MB" IsNumber old.max_file_mb new.max_file_mb
  pub allowed_dirs : Overlaid env "SKB_UPLOAD_ALLOWED_DIRS" IsDirs old.allowed_dirs new.allowed_dirs

pub record IsOverlaid (env : Env) (old new : Config) : Type 0 where
  pub storage : IsStorageOverlaid env old.storage new.storage
  pub embedding : IsEmbeddingOverlaid env old.embedding new.embedding
  pub chunking : IsChunkingOverlaid env old.chunking new.chunking
  pub search : IsSearchOverlaid env old.search new.search
  pub upload : IsUploadOverlaid env old.upload new.upload

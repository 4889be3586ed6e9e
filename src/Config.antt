-- ===== src/Config.antt =====
-- crates/skb-core/src/config.rs: the configuration, its defaults, its checks, and its resolution
-- against the values detected from the embedding model. Loading is in Config/Env.antt.
pub mod Env
pub mod Load
pub mod Parse
pub mod Valid
use surreal_knowledge_base.Base.{
  ℕ, Text, lit, show, Option, none, some, List, [], ◌∷◌, Bool, ◌++◌, ◌==◌, ◌&&◌, not, ltb, leb,
  if◌then◌else◌,
}
use surreal_knowledge_base.Error.{ErrorCode, SkbError, skb_error, Outcome, ok, err, ◌>>=◌, ◌>>◌}
use surreal_knowledge_base.Search.Limits.{max_top_k}

pub data StorageMode : Type 0 where
  embedded remote : StorageMode

pub record StorageConfig : Type 0 where
  pub mode : StorageMode
  pub path : Text
  pub namespace : Text
  pub database : Text
  pub url : Option Text
  pub username : Option Text
  pub password : Option Text

pub record EmbeddingConfig : Type 0 where
  pub model : Text
  pub onnx_path : Text
  pub tokenizer : Text
  pub dimension : ℕ
  pub max_input_tokens : ℕ
  pub device : Text
  pub batch_size : ℕ

pub record ChunkingConfig : Type 0 where
  pub max_tokens : ℕ
  pub overlap_tokens : ℕ

pub data SearchMode : Type 0 where
  hybrid vector keyword : SearchMode

pub record SearchConfig : Type 0 where
  pub default_mode : SearchMode
  pub top_k : ℕ
  pub rrf_k : ℕ

pub record UploadConfig : Type 0 where
  pub max_file_mb : ℕ
  pub allowed_dirs : List Text

pub record Config : Type 0 where
  pub storage : StorageConfig
  pub embedding : EmbeddingConfig
  pub chunking : ChunkingConfig
  pub search : SearchConfig
  pub upload : UploadConfig

-- `Path::join` with a relative path, where the separator is a slash.
unfoldable pub join : Text → Text → Text
join [] rel = rel
join (c ∷ []) rel = if c == b'/' then c ∷ rel else c ∷ b'/' ∷ rel
join (c ∷ d ∷ base) rel = c ∷ join (d ∷ base) rel

-- `Default` of each part; the database lies below the home directory.
unfoldable pub default_storage : Text → StorageConfig
unfolding join
default_storage home = record {
  mode = embedded;
  path = join home (lit ".local/share/skb/db");
  namespace = lit "skb";
  database = lit "knowledge";
  url = none;
  username = none;
  password = none;
}

abbrev pub default_embedding : EmbeddingConfig
default_embedding = record {
  model = lit "BAAI/bge-m3";
  onnx_path = lit "auto";
  tokenizer = lit "auto";
  dimension = 0;
  max_input_tokens = 0;
  device = lit "cpu";
  batch_size = 32;
}

abbrev pub default_chunking : ChunkingConfig
default_chunking = record { max_tokens = 512; overlap_tokens = 64 }

abbrev pub default_search : SearchConfig
default_search = record { default_mode = hybrid; top_k = 10; rrf_k = 60 }

abbrev pub default_upload : UploadConfig
default_upload = record { max_file_mb = 100; allowed_dirs = [] }

unfoldable pub default_config : Text → Config
unfolding default_storage
default_config home = record {
  storage = default_storage home;
  embedding = default_embedding;
  chunking = default_chunking;
  search = default_search;
  upload = default_upload;
}

abbrev pub invalid {ℓ} : {A : Type ℓ} → Text → Outcome SkbError A
invalid m = err (skb_error ErrorCode.validation m)

-- An early return: `if test { return Err(E_VALIDATION) }`.
abbrev pub reject_if : Bool → Text → Outcome SkbError (Unit {0})
reject_if b m = if b then invalid m else ok tt

-- `Config::validate`
unfoldable pub validate : Config → Outcome SkbError (Unit {0})
validate c = do
  reject_if (c.embedding.dimension == 0)
      (lit "embedding.dimension must be resolved before validation")
  reject_if (c.embedding.max_input_tokens == 0)
      (lit "embedding.max_input_tokens must be resolved before validation")
  reject_if (c.embedding.batch_size == 0) (lit "embedding.batch_size must be at least 1")
  reject_if (c.chunking.max_tokens == 0) (lit "chunking.max_tokens must be at least 1")
  reject_if (leb c.chunking.max_tokens c.chunking.overlap_tokens) (
      lit "chunking.overlap_tokens ("
      ++ show c.chunking.overlap_tokens
      ++ lit ") must be less than chunking.max_tokens ("
      ++ show c.chunking.max_tokens
      ++ lit ")")
  reject_if (ltb c.embedding.max_input_tokens c.chunking.max_tokens) (
      lit "chunking.max_tokens ("
      ++ show c.chunking.max_tokens
      ++ lit ") must not exceed embedding.max_input_tokens ("
      ++ show c.embedding.max_input_tokens
      ++ lit ")")
  reject_if (c.search.top_k == 0) (lit "search.top_k must be at least 1")
  reject_if (ltb max_top_k c.search.top_k)
      (lit "search.top_k (" ++ show c.search.top_k ++ lit ") must be at most " ++ show max_top_k)
  reject_if (c.search.rrf_k == 0) (lit "search.rrf_k must be at least 1")
  reject_if (c.upload.max_file_mb == 0) (lit "upload.max_file_mb must be at least 1")

abbrev fill : ℕ → ℕ → ℕ
fill configured detected = if configured == 0 then detected else configured

-- `Config::resolve_embedding_settings`
unfoldable pub resolve_embedding_settings : Config → ℕ → ℕ → Outcome SkbError Config
resolve_embedding_settings c detected_dimension detected_max_input_tokens = do
  let cfg_dim = c.embedding.dimension
  let cfg_max = c.embedding.max_input_tokens
  reject_if (not (cfg_dim == 0) && not (cfg_dim == detected_dimension)) (
      lit "embedding.dimension ("
      ++ show cfg_dim
      ++ lit ") does not match model dimension ("
      ++ show detected_dimension
      ++ lit ")")
  reject_if (not (cfg_max == 0) && not (cfg_max == detected_max_input_tokens)) (
      lit "embedding.max_input_tokens ("
      ++ show cfg_max
      ++ lit ") does not match model max input ("
      ++ show detected_max_input_tokens
      ++ lit ")")
  let resolved = record c {
    embedding = record c.embedding {
      dimension = fill cfg_dim detected_dimension;
      max_input_tokens = fill cfg_max detected_max_input_tokens;
    };
  }
  validate resolved
  ok resolved

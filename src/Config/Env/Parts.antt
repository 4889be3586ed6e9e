-- ===== src/Config/Env/Parts.antt =====
-- The statements of `apply_env_overrides` (crates/skb-core/src/config.rs) on the other parts.
use surreal_knowledge_base.Base.{ℕ, Text, ◌≡◌, refl, sym, subst, arith}
use surreal_knowledge_base.Error.{ok, >>=-eq-ok}
use surreal_knowledge_base.Config.{
  Config, EmbeddingConfig, ChunkingConfig, SearchConfig, UploadConfig,
}
use surreal_knowledge_base.Config.Env.{
  Env, override_embedding, override_chunking, override_search, override_model, override_sizes,
  override_upload, set_default_mode, set_allowed_dirs,
}
use surreal_knowledge_base.Config.Env.Fields.{
  Overlaid, IsText, IsNumber, IsSearchMode, IsDirs, IsEmbeddingOverlaid, IsChunkingOverlaid,
  IsSearchOverlaid, IsUploadOverlaid,
}
use surreal_knowledge_base.Config.Env.Statements.{
  variable_bind, IsNumber-bind, bind-ok, search_mode_reads, IsDirs-reads,
}

model-Overlaid :
    (env : Env) (c r : Config)
    → override_model env c ≡ ok r
    → (model : Text) × (onnx_path : Text) × (tokenizer : Text) × Overlaid env "SKB_EMBEDDING_MODEL"
        IsText c.embedding.model model
      × Overlaid env "SKB_EMBEDDING_ONNX_PATH" IsText c.embedding.onnx_path onnx_path
      × Overlaid env "SKB_EMBEDDING_TOKENIZER" IsText c.embedding.tokenizer tokenizer
      × (record c {
        embedding = record c.embedding {
          model = model;
          onnx_path = onnx_path;
          tokenizer = tokenizer;
        };
      }
          ≡ r)
unfolding override_model
model-Overlaid env c r e =
    let (v0, o0, e) =
      variable_bind env "SKB_EMBEDDING_MODEL" c.embedding.model IsText
        (λ v c. record c { embedding = record c.embedding { model = v } })
        (λ v c. ok (record c { embedding = record c.embedding { model = v } })) _ _ r refl
        (λ t d w. (t, refl, ground arith)) e in
    let (v1, o1, e) =
      variable_bind env "SKB_EMBEDDING_ONNX_PATH" c.embedding.onnx_path IsText
        (λ v c. record c { embedding = record c.embedding { onnx_path = v } })
        (λ v c. ok (record c { embedding = record c.embedding { onnx_path = v } })) _ _ r refl
        (λ t d w. (t, refl, ground arith)) e in
    let (v2, o2, e) =
      variable_bind env "SKB_EMBEDDING_TOKENIZER" c.embedding.tokenizer IsText
        (λ v c. record c { embedding = record c.embedding { tokenizer = v } })
        (λ v c. ok (record c { embedding = record c.embedding { tokenizer = v } })) ok _ r refl
        (λ t d w. (t, refl, ground arith)) (bind-ok _ e) in
    (v0, v1, v2, o0, o1, o2, ground arith)

sizes-Overlaid :
    (env : Env) (c r : Config)
    → override_sizes env c ≡ ok r
    → (dimension : ℕ) × (max_input_tokens : ℕ) × (device : Text) × (batch_size : ℕ) × Overlaid env
        "SKB_EMBEDDING_DIMENSION" IsNumber c.embedding.dimension dimension
      × Overlaid env "SKB_EMBEDDING_MAX_INPUT_TOKENS" IsNumber c.embedding.max_input_tokens
          max_input_tokens
      × Overlaid env "SKB_EMBEDDING_DEVICE" IsText c.embedding.device device
      × Overlaid env "SKB_EMBEDDING_BATCH_SIZE" IsNumber c.embedding.batch_size batch_size
      × (record c {
        embedding = record c.embedding {
          dimension = dimension;
          max_input_tokens = max_input_tokens;
          device = device;
          batch_size = batch_size;
        };
      }
          ≡ r)
unfolding override_sizes
sizes-Overlaid env c r e =
    let (v0, o0, e) =
      IsNumber-bind env "SKB_EMBEDDING_DIMENSION" c.embedding.dimension
        (λ v c. record c { embedding = record c.embedding { dimension = v } }) _ _ r refl e in
    let (v1, o1, e) =
      IsNumber-bind env "SKB_EMBEDDING_MAX_INPUT_TOKENS" c.embedding.max_input_tokens
        (λ v c. record c { embedding = record c.embedding { max_input_tokens = v } }) _ _ r refl
        e in
    let (v2, o2, e) =
      variable_bind env "SKB_EMBEDDING_DEVICE" c.embedding.device IsText
        (λ v c. record c { embedding = record c.embedding { device = v } })
        (λ v c. ok (record c { embedding = record c.embedding { device = v } })) _ _ r refl
        (λ t d w. (t, refl, ground arith)) e in
    let (v3, o3, e) =
      IsNumber-bind env "SKB_EMBEDDING_BATCH_SIZE" c.embedding.batch_size
        (λ v c. record c { embedding = record c.embedding { batch_size = v } }) ok _ r refl
        (bind-ok _ e) in
    (v0, v1, v2, v3, o0, o1, o2, o3, ground arith)

pub embedding_overlaid :
    (env : Env) (c r : Config)
    → override_embedding env c ≡ ok r
    → (part : EmbeddingConfig) × IsEmbeddingOverlaid env c.embedding part
      × (record c { embedding = part } ≡ r)
unfolding override_embedding
embedding_overlaid env c r e0 =
    let (d0, p0, e1) = >>=-eq-ok (override_model env _) _ e0 in
    let (model, onnx_path, tokenizer, o_model, o_onnx_path, o_tokenizer, m0) =
      model-Overlaid env _ d0 p0 in
    let (
      dimension, max_input_tokens, device, batch_size, o_dimension, o_max_input_tokens, o_device,
      o_batch_size, whole,
    ) =
      sizes-Overlaid env _ r (subst (λ x. override_sizes env x ≡ ok r) (sym m0) e1) in
    (
      record {
        model = model;
        onnx_path = onnx_path;
        tokenizer = tokenizer;
        dimension = dimension;
        max_input_tokens = max_input_tokens;
        device = device;
        batch_size = batch_size;
      },
      record {
        model = o_model;
        onnx_path = o_onnx_path;
        tokenizer = o_tokenizer;
        dimension = o_dimension;
        max_input_tokens = o_max_input_tokens;
        device = o_device;
        batch_size = o_batch_size;
      },
      whole,
    )

pub chunking_overlaid :
    (env : Env) (c r : Config)
    → override_chunking env c ≡ ok r
    → (part : ChunkingConfig) × IsChunkingOverlaid env c.chunking part
      × (record c { chunking = part } ≡ r)
unfolding override_chunking
chunking_overlaid env c r e =
    let (v0, o0, e) =
      IsNumber-bind env "SKB_CHUNKING_MAX_TOKENS" c.chunking.max_tokens
        (λ v c. record c { chunking = record c.chunking { max_tokens = v } }) _ _ r refl e in
    let (v1, o1, e) =
      IsNumber-bind env "SKB_CHUNKING_OVERLAP_TOKENS" c.chunking.overlap_tokens
        (λ v c. record c { chunking = record c.chunking { overlap_tokens = v } }) ok _ r refl
        (bind-ok _ e) in
    (
      record { max_tokens = v0; overlap_tokens = v1 },
      record { max_tokens = o0; overlap_tokens = o1 },
      ground arith,
    )

pub search_overlaid :
    (env : Env) (c r : Config)
    → override_search env c ≡ ok r
    → (part : SearchConfig) × IsSearchOverlaid env c.search part × (record c { search = part } ≡ r)
unfolding override_search
search_overlaid env c r e =
    let (v0, o0, e) =
      variable_bind env "SKB_SEARCH_DEFAULT_MODE" c.search.default_mode IsSearchMode
        (λ v c. record c { search = record c.search { default_mode = v } }) set_default_mode _ _ r
        refl (λ t d w. search_mode_reads t _ d w) e in
    let (v1, o1, e) =
      IsNumber-bind env "SKB_SEARCH_TOP_K" c.search.top_k
        (λ v c. record c { search = record c.search { top_k = v } }) _ _ r refl e in
    let (v2, o2, e) =
      IsNumber-bind env "SKB_SEARCH_RRF_K" c.search.rrf_k
        (λ v c. record c { search = record c.search { rrf_k = v } }) ok _ r refl (bind-ok _ e) in
    (
      record { default_mode = v0; top_k = v1; rrf_k = v2 },
      record { default_mode = o0; top_k = o1; rrf_k = o2 },
      ground arith,
    )

pub upload_overlaid :
    (env : Env) (c r : Config)
    → override_upload env c ≡ ok r
    → (part : UploadConfig) × IsUploadOverlaid env c.upload part × (record c { upload = part } ≡ r)
unfolding override_upload
upload_overlaid env c r e =
    let (v0, o0, e) =
      IsNumber-bind env "SKB_UPLOAD_MAX_FILE_MB" c.upload.max_file_mb
        (λ v c. record c { upload = record c.upload { max_file_mb = v } }) _ _ r refl e in
    let (v1, o1, e) =
      variable_bind env "SKB_UPLOAD_ALLOWED_DIRS" c.upload.allowed_dirs IsDirs
        (λ v c. record c { upload = record c.upload { allowed_dirs = v } }) set_allowed_dirs ok _ r
        refl (λ t d w. IsDirs-reads t _ d w) (bind-ok _ e) in
    (
      record { max_file_mb = v0; allowed_dirs = v1 },
      record { max_file_mb = o0; allowed_dirs = o1 },
      ground arith,
    )

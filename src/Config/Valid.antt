-- ===== src/Config/Valid.antt =====
-- What a checked configuration guarantees to the components that read it.
use surreal_knowledge_base.Base.{ℕ, ◌≤◌, ◌<◌, ◌≡◌, ◌↔◌, ◌⊎◌, arith}
use surreal_knowledge_base.Error.{ok}
use surreal_knowledge_base.Search.Limits.{max_top_k}
use surreal_knowledge_base.Config.{Config, validate, resolve_embedding_settings}

pub record IsValid (c : Config) : Type 0 where
  pub dimension : 0 < c.embedding.dimension
  pub max_input : 0 < c.embedding.max_input_tokens
  pub batch : 0 < c.embedding.batch_size
  pub chunk : 0 < c.chunking.max_tokens
  pub overlap : c.chunking.overlap_tokens < c.chunking.max_tokens
  pub fits : c.chunking.max_tokens ≤ c.embedding.max_input_tokens
  pub top_k : 0 < c.search.top_k
  pub top_k_max : c.search.top_k ≤ max_top_k
  pub rrf_k : 0 < c.search.rrf_k
  pub file_mb : 0 < c.upload.max_file_mb

-- A configuration passes the check exactly when every documented bound holds.
pub validate-eq-ok_iff : (c : Config) → (validate c ≡ ok tt) ↔ IsValid c
unfolding validate
validate-eq-ok_iff c = (λ h. ground arith, λ v. ground arith)

-- The values that the model reports, whatever was configured.
abbrev pub with_detected : Config → ℕ → ℕ → Config
with_detected c dim max_input = record c {
  embedding = record c.embedding { dimension = dim; max_input_tokens = max_input };
}

-- Resolution succeeds exactly when the configured dimension and input limit are unset or are those
-- that the model reports, and the configuration that holds the reported values is valid; the
-- result is then that configuration.
pub resolve-eq-ok_iff :
    (c r : Config) (dim max_input : ℕ)
    → (resolve_embedding_settings c dim max_input ≡ ok r) ↔ (
        ((c.embedding.dimension ≡ 0) ⊎ (c.embedding.dimension ≡ dim))
        × ((c.embedding.max_input_tokens ≡ 0) ⊎ (c.embedding.max_input_tokens ≡ max_input))
        × (r ≡ with_detected c dim max_input)
        × IsValid r)
unfolding resolve_embedding_settings
resolve-eq-ok_iff c r dim max_input =
    (λ h. ground (arith, validate-eq-ok_iff r), λ h. ground (arith, validate-eq-ok_iff r))

-- ===== src/Tests/Config.antt =====
-- A configuration of a small model, its variables, and error codes (crates/skb-core/src/config.rs,
-- crates/skb-core/src/error.rs).
use surreal_knowledge_base.Base.{◌≤◌, ◌<◌, ◌≡◌, ◌↔◌, ◌⊎◌, refl, lit, text_eq, if◌then◌else◌}
use surreal_knowledge_base.Error.{ErrorCode, ok, code_str, exit_code}
use surreal_knowledge_base.Error.Codes.{error_codes_injective}
use surreal_knowledge_base.Config.{
  Config, hybrid, vector, default_config, validate, resolve_embedding_settings,
}
use surreal_knowledge_base.Config.Valid.{
  IsValid, with_detected, validate-eq-ok_iff, resolve-eq-ok_iff,
}
use surreal_knowledge_base.Config.Parse.{
  parse_unsigned, parse_search_mode, as_str, parse-as_str_iff,
}
use surreal_knowledge_base.Config.Env.{
  Env, present, not_present, apply_env_overrides, env_opt, env_parse, set_default_mode,
}
use surreal_knowledge_base.Config.Env.Fields.{IsOverlaid}
use surreal_knowledge_base.Config.Env.Precedence.{apply_env_overrides-IsOverlaid}

abbrev unresolved : Config
unfolding default_config
unresolved = default_config (lit "/root")

abbrev resolved : Config
resolved = with_detected unresolved 384 512

validate-eq-ok_iff_example : (validate resolved ≡ ok tt) ↔ IsValid resolved
validate-eq-ok_iff_example = validate-eq-ok_iff resolved

resolve-eq-ok_iff_example : (resolve_embedding_settings unresolved 384 512 ≡ ok resolved) ↔ (
    ((unresolved.embedding.dimension ≡ 0) ⊎ (unresolved.embedding.dimension ≡ 384))
    × ((unresolved.embedding.max_input_tokens ≡ 0) ⊎ (unresolved.embedding.max_input_tokens ≡ 512))
    × (resolved ≡ with_detected unresolved 384 512)
    × IsValid resolved)
resolve-eq-ok_iff_example = resolve-eq-ok_iff unresolved resolved 384 512

resolve_test : resolve_embedding_settings unresolved 384 512 ≡ ok resolved
unfolding resolve_embedding_settings unresolved validate
resolve_test = refl

abbrev set_variables : Env
set_variables key =
    if text_eq (lit key) (lit "SKB_SEARCH_TOP_K")
    then present (lit "20")
    else if text_eq (lit key) (lit "SKB_SEARCH_DEFAULT_MODE")
    then present (lit "vector")
    else not_present

abbrev overlaid : Config
overlaid = record unresolved {
  search = record unresolved.search { default_mode = vector; top_k = 20 };
}

overrides_test : apply_env_overrides set_variables unresolved ≡ ok overlaid
unfolding apply_env_overrides env_opt text_eq lit env_parse set_default_mode parse_search_mode
    parse_unsigned
overrides_test = refl

apply_env_overrides-IsOverlaid_example : IsOverlaid set_variables unresolved overlaid
apply_env_overrides-IsOverlaid_example =
    apply_env_overrides-IsOverlaid set_variables unresolved overlaid overrides_test

parse-as_str_iff_example :
    (parse_search_mode (lit "hybrid") ≡ ok hybrid) ↔ (lit "hybrid" ≡ as_str hybrid)
parse-as_str_iff_example = parse-as_str_iff (lit "hybrid") hybrid

error_codes_injective_example :
    ((exit_code ErrorCode.db ≡ exit_code ErrorCode.io) ↔ (ErrorCode.db ≡ ErrorCode.io))
    × ((code_str ErrorCode.db ≡ code_str ErrorCode.io) ↔ (ErrorCode.db ≡ ErrorCode.io))
    × (1 < exit_code ErrorCode.db)
    × (exit_code ErrorCode.db ≤ 10)
error_codes_injective_example = error_codes_injective ErrorCode.db ErrorCode.io

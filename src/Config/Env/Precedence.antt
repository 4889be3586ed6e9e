-- ===== src/Config/Env/Precedence.antt =====
-- The precedence of the environment over the file (crates/skb-core/src/config.rs).
use surreal_knowledge_base.Base.{◌≡◌, refl, subst, arith}
use surreal_knowledge_base.Error.{ok, >>=-eq-ok}
use surreal_knowledge_base.Config.{Config}
use surreal_knowledge_base.Config.Env.{
  Env, override_storage, override_embedding, override_chunking, override_search,
  apply_env_overrides,
}
use surreal_knowledge_base.Config.Env.Fields.{
  IsStorageOverlaid, IsEmbeddingOverlaid, IsChunkingOverlaid, IsSearchOverlaid, IsUploadOverlaid,
  IsOverlaid,
}
use surreal_knowledge_base.Config.Env.StorageParts.{storage_overlaid}
use surreal_knowledge_base.Config.Env.Parts.{
  embedding_overlaid, chunking_overlaid, search_overlaid, upload_overlaid,
}

moved : {A : Type 0} (P : A → A → Type 0) {a b x y : A} → a ≡ x → b ≡ y → P a b → P x y
moved P {a} {b} {x} {y} p q h = subst (P x) q (subst (λ z. P z b) p h)

-- After a successful overlay each of the 21 fields is what its own `SKB_*` variable says, where that
-- is set (as text, as a 64-bit number, as a mode, or as a non-empty list of directories), and is
-- the field of the configuration from the file where the variable is not set.
pub apply_env_overrides-IsOverlaid :
    (env : Env) (c r : Config) → apply_env_overrides env c ≡ ok r → IsOverlaid env c r
unfolding apply_env_overrides
apply_env_overrides-IsOverlaid env c r e =
    let (c1, e1, e) = >>=-eq-ok (override_storage env c) _ e in
    let (c2, e2, e) = >>=-eq-ok (override_embedding env c1) _ e in
    let (c3, e3, e) = >>=-eq-ok (override_chunking env c2) _ e in
    let (c4, e4, e5) = >>=-eq-ok (override_search env c3) _ e in
    let (a1, o1, q1) = storage_overlaid env c c1 e1 in
    let (a2, o2, q2) = embedding_overlaid env c1 c2 e2 in
    let (a3, o3, q3) = chunking_overlaid env c2 c3 e3 in
    let (a4, o4, q4) = search_overlaid env c3 c4 e4 in
    let (a5, o5, q5) = upload_overlaid env c4 r e5 in
    record {
      storage = moved (IsStorageOverlaid env) refl (ground arith) o1;
      embedding = moved (IsEmbeddingOverlaid env) (ground arith) (ground arith) o2;
      chunking = moved (IsChunkingOverlaid env) (ground arith) (ground arith) o3;
      search = moved (IsSearchOverlaid env) (ground arith) (ground arith) o4;
      upload = moved (IsUploadOverlaid env) (ground arith) (ground arith) o5;
    }

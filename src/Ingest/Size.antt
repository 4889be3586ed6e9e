-- ===== src/Ingest/Size.antt =====
-- Size limits and the batches of the embedder, in crates/skb-core/src/ingest.rs.
use surreal_knowledge_base.Base.{
  ℕ, ◌*◌, ◌≤◌, ◌≡◌, min, lit, show, ◌++◌, ltb, Bool-cases, inl, inr, arith, ◌↔◌,
}
use surreal_knowledge_base.Error.{SkbError, Outcome, ok}
use surreal_knowledge_base.Config.{Config, reject_if}
use surreal_knowledge_base.Config.Parse.{u64_max}

-- `max_upload_bytes`, with `saturating_mul`.
unfoldable pub max_upload_bytes : Config → ℕ
max_upload_bytes config = min (config.upload.max_file_mb * (1024 * 1024)) u64_max

-- `check_size`
unfoldable pub check_size : ℕ → Config → Outcome SkbError (Unit {0})
unfolding max_upload_bytes
check_size len config = reject_if (ltb (max_upload_bytes config) len) (
    lit "input size "
    ++ show len
    ++ lit " bytes exceeds upload.max_file_mb ("
    ++ show config.upload.max_file_mb
    ++ lit ")")

-- A size passes the check exactly if it is within the limit.
pub check_size-eq-ok_iff :
    (len : ℕ) (config : Config) → (check_size len config ≡ ok tt) ↔ (len ≤ max_upload_bytes config)
unfolding check_size
check_size-eq-ok_iff len config = elim (Bool-cases (ltb (max_upload_bytes config) len)) [
  | inl e ↦ ground arith
  | inr e ↦ ground arith
]

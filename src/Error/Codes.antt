-- ===== src/Error/Codes.antt =====
-- Error codes tell errors apart, on the wire and as exit codes (crates/skb-core/src/error.rs).
use surreal_knowledge_base.Base.{◌<◌, ◌≤◌, ◌≡◌, ◌↔◌, ap, arith}
use surreal_knowledge_base.Error.{ErrorCode, code_str, exit_code}

-- Both the exit code and the code text identify the error code, and an exit code lies between 2
-- and 10, so that it is never that of success or of an error without a code.
pub error_codes_injective :
    (a b : ErrorCode)
    → ((exit_code a ≡ exit_code b) ↔ (a ≡ b))
      × ((code_str a ≡ code_str b) ↔ (a ≡ b))
      × (1 < exit_code a)
      × (exit_code a ≤ 10)
unfolding exit_code code_str
error_codes_injective a b = (
  (λ h. ground arith, λ h. ap exit_code h),
  (λ h. ground arith, λ h. ap code_str h),
  ground arith,
  ground arith,
)

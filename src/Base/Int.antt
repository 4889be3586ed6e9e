-- ===== src/Base/Int.antt =====
-- Signed 64-bit numbers, and the cast of an unsigned one.
use Prim.Native.Nat.{ℕ, ◌-◌, ◌%◌, ◌^◌, ◌≤◌, ◌<◌}
use mathlib.Core.Path.{◌≡◌, refl, sym, subst}
use mathlib.Core.Bool.{Bool, true, false}
use native.Mathlib.Omega.{arith}
use surreal_knowledge_base.Base.Tests.{ltb, if◌then◌else◌}

pub data ℤ : Type 0 where
  pos negsuc : ℕ → ℤ

-- `n as i64`, which wraps around.
unfoldable pub as_i64 : ℕ → ℤ
as_i64 n = if ltb (n % 2 ^ 64) (2 ^ 63) then pos (n % 2 ^ 64) else negsuc (2 ^ 64 - 1 - n % 2 ^ 64)

unfoldable pub ltb_int : ℤ → ℤ → Bool
ltb_int (pos a) (pos b) = ltb a b
ltb_int (pos a) (negsuc b) = false
ltb_int (negsuc a) (pos b) = true
ltb_int (negsuc a) (negsuc b) = ltb b a

pub as_i64-small : (n : ℕ) → n < 2 ^ 63 → as_i64 n ≡ pos n
unfolding as_i64
as_i64-small n h =
    let same : n % 2 ^ 64 ≡ n = omega (arith, h) in
    subst (λ r. (if ltb r (2 ^ 63) then pos r else negsuc (2 ^ 64 - 1 - r)) ≡ pos n) (sym same)
      (ground arith)

ltb_int-pos : (e : ℤ) (a b : ℕ) → a ≤ b → ltb_int e (pos a) ≡ true → ltb_int e (pos b) ≡ true
unfolding ltb_int
ltb_int-pos (pos e) a b h k = ground arith
ltb_int-pos (negsuc e) a b h k = refl

-- What lies before a time lies before a later one, if that does not wrap.
pub ltb_int-as_i64 :
    (e : ℤ) (now time : ℕ)
    → now ≤ time
    → time < 2 ^ 63
    → ltb_int e (as_i64 now) ≡ true
    → ltb_int e (as_i64 time) ≡ true
ltb_int-as_i64 e now time le small h =
    subst (λ t. ltb_int e t ≡ true) (sym (as_i64-small time small))
      (ltb_int-pos e now time le
        (subst (λ t. ltb_int e t ≡ true) (as_i64-small now (omega (arith, le, small))) h))

pub ltb_int_self : (e : ℤ) → ltb_int e e ≡ false
unfolding ltb_int
ltb_int_self (pos e) = ground arith
ltb_int_self (negsuc e) = ground arith

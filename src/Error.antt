-- ===== src/Error.antt =====
-- crates/skb-core/src/error.rs: the error type that every crate shares, its codes, and the search
-- of an error chain. `Outcome` is a fallible run of Rust code: a value, an error, a panic, or (for
-- the loops that take fuel) fuel that ran out.
pub mod Codes
pub mod Action
use surreal_knowledge_base.Base.{ℕ, Text, lit, Option, none, some, ◌≡◌, refl, ap}

pub data ErrorCode : Type 0 where
  config db unsupported_format io document_not_found embedding validation : ErrorCode
  model_mismatch tokenize : ErrorCode

pub record SkbError : Type 0 where
  pub code : ErrorCode
  pub message : Text

-- `SkbError::new`
abbrev pub skb_error : ErrorCode → Text → SkbError
skb_error c m = record { code = c; message = m }

unfoldable pub code_str : ErrorCode → Text
unfolding lit
code_str config = lit "E_CONFIG"
code_str db = lit "E_DB"
code_str unsupported_format = lit "E_UNSUPPORTED_FORMAT"
code_str io = lit "E_IO"
code_str document_not_found = lit "E_DOCUMENT_NOT_FOUND"
code_str embedding = lit "E_EMBEDDING"
code_str validation = lit "E_VALIDATION"
code_str model_mismatch = lit "E_MODEL_MISMATCH"
code_str tokenize = lit "E_TOKENIZE"

unfoldable pub exit_code : ErrorCode → ℕ
exit_code config = 2
exit_code db = 3
exit_code unsupported_format = 4
exit_code io = 5
exit_code document_not_found = 6
exit_code embedding = 7
exit_code validation = 8
exit_code model_mismatch = 9
exit_code tokenize = 10

-- An error with its `source()` chain: a `SkbError`, another error, or either below a context.
pub data AnyError : Type 0 where
  skb : SkbError → AnyError
  other : Text → AnyError
  context : Text → AnyError → AnyError

-- `ErrorCode::from_std`: the first `SkbError` of the chain.
unfoldable pub from_std : AnyError → Option ErrorCode
from_std (skb e) = some e.code
from_std (other m) = none
from_std (context m e) = from_std e

pub data Outcome {ℓ} (E : Type 0) (A : Type ℓ) : Type ℓ where
  ok : A → Outcome E A
  err : E → Outcome E A
  panic : Outcome E A
  out_of_fuel : Outcome E A

infixl 5 ◌>>=◌ ◌>>◌
abbrev pub ◌>>=◌ {ℓ κ} :
    {E : Type 0} {A : Type ℓ} {B : Type κ} → Outcome E A → (A → Outcome E B) → Outcome E B
panic >>= k = panic
out_of_fuel >>= k = out_of_fuel
err e >>= k = err e
ok v >>= k = k v

abbrev pub ◌>>◌ {ℓ} : {E : Type 0} {B : Type ℓ} → Outcome E (Unit {0}) → Outcome E B → Outcome E B
m >> k = m >>= λ _. k

-- `map_err` into an error chain, as `?` does at an `anyhow::Result`.
abbrev pub map_err {ℓ} : {E F : Type 0} {A : Type ℓ} → (E → F) → Outcome E A → Outcome F A
map_err g (ok a) = ok a
map_err g (err e) = err (g e)
map_err g panic = panic
map_err g out_of_fuel = out_of_fuel

-- `Option::ok_or_else`
abbrev pub ok_or {ℓ} : {E : Type 0} {A : Type ℓ} → E → Option A → Outcome E A
ok_or e none = err e
ok_or e (some a) = ok a

-- A partial operation that panics where it has no result, such as a slice off a boundary.
abbrev pub or_panic {ℓ} : {E : Type 0} {A : Type ℓ} → Option A → Outcome E A
or_panic none = panic
or_panic (some a) = ok a

-- If a chain has a value, its first step has one, and the rest has the chain's value from there on.
pub >>=-eq-ok {ℓ κ} :
    {E : Type 0} {A : Type ℓ} {B : Type κ} (step : Outcome E A) (onward : A → Outcome E B) {r : B}
    → (step >>= onward) ≡ ok r
    → (v : A) × (step ≡ ok v) × (onward v ≡ ok r)
>>=-eq-ok panic onward ended = cc
>>=-eq-ok out_of_fuel onward ended = cc
>>=-eq-ok (err e) onward ended = cc
>>=-eq-ok (ok v) onward ended = (v, refl, ended)

pub ok-injective {ℓ} :
    {E : Type 0} {A : Type ℓ} {a b : A} → ◌≡◌ {A = Outcome E A} (ok a) (ok b) → a ≡ b
ok-injective {E} {A} {a} {b} h = ap (λ (o : Outcome E A). value a o) h
  where
    value : A → Outcome E A → A
    value d (ok x) = x
    value d _ = d

pub map_err-eq-ok {ℓ} :
    {E F : Type 0} {A : Type ℓ} (f : E → F) (step : Outcome E A) (a : A)
    → map_err f step ≡ ok a
    → step ≡ ok a
map_err-eq-ok f (ok b) a h = ap ok (ok-injective h)
map_err-eq-ok f (err e) a h = cc
map_err-eq-ok f panic a h = cc
map_err-eq-ok f out_of_fuel a h = cc

-- A statement that was sent and then checked was accepted.
pub checked-eq-ok {ℓ} :
    {E F : Type 0} {A : Type ℓ} (f g : E → F) (step : Outcome E (Outcome E A)) (a : A)
    → (map_err f step >>= λ r. map_err g r) ≡ ok a
    → step ≡ ok (ok a)
checked-eq-ok f g (ok r) a h = ap ok (map_err-eq-ok g r a h)
checked-eq-ok f g (err e) a h = cc
checked-eq-ok f g panic a h = cc
checked-eq-ok f g out_of_fuel a h = cc

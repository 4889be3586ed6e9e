-- ===== src/Base/Bytes.antt =====
-- Byte slices at character boundaries have a result: where Rust's `&s[a..b]` does not panic.
use Prim.Native.Nat.{ℕ, ◌-◌, ◌≤◌}
use mathlib.Core.Path.{◌≡◌, subst}
use mathlib.Core.Logic.{inl, inr}
use mathlib.Core.List.{[], ◌∷◌}
use mathlib.Core.Option.{some}
use native.Mathlib.Omega.{arith}
use surreal_knowledge_base.Base.Tests.{◌==◌, Bool-cases}
use surreal_knowledge_base.Base.Chars.{
  Text, len_utf8, len_utf8_pos, byte_len, drop_bytes, take_bytes, slice,
}

-- A byte offset between two characters, or at an end.
pub record IsBoundary (text : Text) (k : ℕ) : Type 0 where
  pub rest : Text
  pub found : drop_bytes k text ≡ some rest

drop_bytes-le : (k : ℕ) (s r : Text) → drop_bytes k s ≡ some r → k ≤ byte_len s
unfolding drop_bytes byte_len
drop_bytes-le k [] r e = ground arith
drop_bytes-le k (c ∷ s) r e = ground (arith, drop_bytes-le (k - len_utf8 c) s r)

pub IsBoundary-le : (text : Text) (k : ℕ) → IsBoundary text k → k ≤ byte_len text
IsBoundary-le text k b = drop_bytes-le k text b.rest b.found

take_bytes_of_drop :
    (k : ℕ) (s r : Text) → drop_bytes k s ≡ some r → (u : Text) × (take_bytes k s ≡ some u)
unfolding drop_bytes take_bytes
take_bytes_of_drop k [] r e = ([], ground arith)
take_bytes_of_drop k (c ∷ s) r e = elim (Bool-cases (k == 0)) [
  | inl z ↦ ([], rw z)
  | inr nz ↦
      let (u, p) = take_bytes_of_drop (k - len_utf8 c) s r (ground arith) in (c ∷ u, ground arith)
]

take_between :
    (a b : ℕ) (s t r : Text)
    → a ≤ b
    → drop_bytes a s ≡ some t
    → drop_bytes b s ≡ some r
    → (u : Text) × (take_bytes (b - a) t ≡ some u)
unfolding drop_bytes
take_between a b [] t r h p q = take_bytes_of_drop (b - a) t [] (unfold drop_bytes in ground arith)
take_between a b (c ∷ s) t r h p q = elim (Bool-cases (a == 0)) [
  | inl z ↦
      let zero_a : a ≡ 0 = ground arith in
      let whole : c ∷ s ≡ t = ground arith in
      take_bytes_of_drop (b - a) t r (
        subst (λ x. drop_bytes (b - a) x ≡ some r) whole
          (subst (λ n. drop_bytes n (c ∷ s) ≡ some r) (omega arith) q))
  | inr nz ↦
      let w = len_utf8 c in
      let fits : w ≤ a = ground arith in
      let p' : drop_bytes (a - w) s ≡ some t = ground arith in
      let q' : drop_bytes (b - w) s ≡ some r = ground (arith, len_utf8_pos c) in
      let (u, e) = take_between (a - w) (b - w) s t r (omega arith) p' q' in
      (u, subst (λ n. take_bytes n t ≡ some u) (omega arith) e)
]

pub slice-IsBoundary :
    (text : Text) (a b : ℕ)
    → a ≤ b
    → IsBoundary text a
    → IsBoundary text b
    → (u : Text) × (slice a b text ≡ some u)
unfolding slice
slice-IsBoundary text a b h p q =
    let (u, e) = take_between a b text p.rest q.rest h p.found q.found in
    (u, ground (arith, p.found))

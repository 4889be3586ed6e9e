-- ===== src/Base.antt =====
-- The names that the other modules share: the libraries', passed on, and those of three children.
pub mod Tests
pub mod Lists
pub mod Chars
pub mod Bytes
pub mod Sort
pub mod Map
pub mod Int
pub mod Float
pub use Tests.*
pub use Lists.*
unfoldable pub use Chars.{
  byte_len, text_eq, is_whitespace, trim_start, trim_end, trim, strip_prefix, starts_with, contains,
  split_once, split, show, lit, drop_bytes, take_bytes, slice,
}
pub use Chars.{Text, codes, len_utf8, text_eq_iff, text_eq_self, drop_while, is_empty}
pub use Prim.Native.Nat.{ℕ, zero, suc, ◌+◌, ◌-◌, ◌*◌, ◌/◌, ◌%◌, ◌^◌, ◌≤◌, ◌<◌, min, max}
pub use Prim.Native.String.{String}
pub use mathlib.Core.Path.{◌≡◌, refl, sym, ap, ap₂, ◌∙◌, subst, ◌≡⟨◌⟩◌, ◌∎}
pub use mathlib.Core.Logic.{◌≢◌, ◌↔◌, ◌⊎◌, inl, inr}
pub use mathlib.Core.Bool.{Bool, true, false, ◌&&◌, ◌||◌, false≢true}
pub use mathlib.Core.Option.{Option, none, some}
pub use mathlib.Core.List.{List, [], ◌∷◌, ◌++◌, map, append_assoc, append-nil}
pub use native.Mathlib.Omega.{arith}

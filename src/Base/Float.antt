-- ===== src/Base/Float.antt =====
-- The operations of `f64` that the program uses, as a parameter: antt has no floats. What a proof
-- needs of their order is `IsOrdered`, which holds of the finite numbers.
use Prim.Native.Nat.{ℕ}
use mathlib.Core.Path.{◌≡◌}
use mathlib.Core.Logic.{◌↔◌}
use mathlib.Core.Option.{Option, none, some}

-- `std::cmp::Ordering`
pub data Order : Type 0 where
  less equal greater : Order

pub record Float (F : Type 0) : Type 0 where
  pub of_ℕ : ℕ → F
  pub add : F → F → F
  pub mul : F → F → F
  pub div : F → F → F
  pub partial_cmp : F → F → Option Order

pub record IsOrdered {F : Type 0} (f : Float F) : Type 0 where
  pub flip_less : (a b : F) → (f.partial_cmp a b ≡ some less) ↔ (f.partial_cmp b a ≡ some greater)
  pub equal_iff : (a b : F) → (f.partial_cmp a b ≡ some equal) ↔ (a ≡ b)
  pub comparable : (a b : F) → f.partial_cmp a b ≡ none → ⊥
  pub trans_less :
      (a b c : F)
      → f.partial_cmp a b ≡ some less
      → f.partial_cmp b c ≡ some less
      → f.partial_cmp a c ≡ some less

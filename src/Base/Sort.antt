-- ===== src/Base/Sort.antt =====
-- Stable sorting by a test, as `slice::sort_by` and `slice::sort` do, and `Vec::dedup`.

pub mod Members
use mathlib.Core.Path.{◌≡◌, refl, ap₂, ◌∙◌}
use mathlib.Core.Bool.{Bool, true, false, ◌&&◌}
use mathlib.Core.List.{List, [], ◌∷◌, Perm, Permᴰ}
use mathlib.Core.List.Perm
use mathlib.Core.Logic.{inl, inr}
use native.Mathlib.Omega.{arith}
use surreal_knowledge_base.Base.Tests.{ltb, ◌==◌, Bool-cases, if◌then◌else◌}
use surreal_knowledge_base.Base.Chars.{Text, text_eq, text_eq_iff}

module _ {ℓ} {A : Type ℓ} (le : A → A → Bool) where
  unfoldable pub insert_sorted : A → List A → List A
  insert_sorted x [] = x ∷ []
  insert_sorted x (y ∷ ys) =
      let rest = insert_sorted x ys in if le x y then x ∷ y ∷ ys else y ∷ rest

  unfoldable pub sort_by : List A → List A
  unfolding insert_sorted
  sort_by [] = []
  sort_by (x ∷ xs) = insert_sorted x (sort_by xs)

  -- Each element is at most the next.
  abbrev pub IsSorted : List A → Type 0
  IsSorted [] = Unit
  IsSorted (x ∷ []) = Unit
  IsSorted (x ∷ y ∷ r) = (le x y ≡ true) × IsSorted (y ∷ r)

  insert_sorted-perm : (x : A) (ys : List A) → Perm (insert_sorted x ys) (x ∷ ys)
  unfolding insert_sorted
  insert_sorted-perm x [] = Perm.refl _
  insert_sorted-perm x (y ∷ ys) = elim (Bool-cases (le x y)) [
    | inl e ↦ rw e (Perm.refl _)
    | inr e ↦ rw e (Perm.trans (Perm.cons y (insert_sorted-perm x ys)) (Perm.swap x y ys))
  ]

  pub sort_by-perm : (xs : List A) → Perm (sort_by xs) xs
  unfolding sort_by
  sort_by-perm [] = Perm.refl _
  sort_by-perm (x ∷ xs) =
      Perm.trans (insert_sorted-perm x (sort_by xs)) (Perm.cons x (sort_by-perm xs))

  module _ (total : (a b : A) → le a b ≡ false → le b a ≡ true) where
    insert_sorted-IsSorted : (x : A) (ys : List A) → IsSorted ys → IsSorted (insert_sorted x ys)
    unfolding insert_sorted
    insert_sorted-IsSorted x [] h = tt
    insert_sorted-IsSorted x (y ∷ []) h = ground (arith, total x y)
    insert_sorted-IsSorted x (y ∷ z ∷ r) h =
        ground (arith, total x y, insert_sorted-IsSorted x (z ∷ r))

    pub sort_by-IsSorted : (xs : List A) → IsSorted (sort_by xs)
    unfolding sort_by
    sort_by-IsSorted [] = tt
    sort_by-IsSorted (x ∷ xs) = insert_sorted-IsSorted x (sort_by xs) (sort_by-IsSorted xs)

-- `Ord` on texts: lexicographic, and on UTF-8 the bytes order as the characters do.
unfoldable pub text_le : Text → Text → Bool
text_le [] t = true
text_le (_ ∷ _) [] = false
text_le (a ∷ s) (b ∷ t) = let rest = text_le s t in if ltb a b then true else a == b && rest

pub text_le_total : (s t : Text) → text_le s t ≡ false → text_le t s ≡ true
unfolding text_le
text_le_total [] t h = cc
text_le_total (a ∷ s) [] h = refl
text_le_total (a ∷ s) (b ∷ t) h = ground (arith, text_le_total s t)

-- A linear order: then the sorted list depends only on which elements there are.
pub record IsLinear {ℓ} {A : Type ℓ} (le : A → A → Bool) : Type ℓ where
  pub total : (a b : A) → le a b ≡ false → le b a ≡ true
  pub trans : (a b c : A) → le a b ≡ true → le b c ≡ true → le a c ≡ true
  pub antisym : (a b : A) → le a b ≡ true → le b a ≡ true → a ≡ b

module _ {ℓ} {A : Type ℓ} (le : A → A → Bool) (linear : IsLinear le) where
  insert_sorted_comm :
      (x y : A) (l : List A)
      → insert_sorted le x (insert_sorted le y l) ≡ insert_sorted le y (insert_sorted le x l)
  unfolding insert_sorted
  insert_sorted_comm x y [] = ground (arith, linear.total x y, linear.total y x, linear.antisym x y)
  insert_sorted_comm x y (z ∷ r) = ground (
    arith,
    linear.total x y,
    linear.total y x,
    linear.antisym x y,
    linear.trans y x z,
    linear.trans x y z,
    insert_sorted_comm x y r,
  )

  -- Sorting forgets the order of its input.
  pub sort_by-eq_of_Permᴰ : {xs ys : List A} → Permᴰ xs ys → sort_by le xs ≡ sort_by le ys
  unfolding sort_by
  sort_by-eq_of_Permᴰ Permᴰ.nil = refl
  sort_by-eq_of_Permᴰ (Permᴰ.cons e p) = ap₂ (insert_sorted le) e (sort_by-eq_of_Permᴰ p)
  sort_by-eq_of_Permᴰ (Permᴰ.swap {a} {b} {l = l} p q) =
      insert_sorted_comm a b (sort_by le l)
      ∙ ap₂ (λ u v. insert_sorted le u (insert_sorted le v (sort_by le l))) q p
  sort_by-eq_of_Permᴰ (Permᴰ.trans p q) = sort_by-eq_of_Permᴰ p ∙ sort_by-eq_of_Permᴰ q

-- `Vec::dedup`: of equal neighbours the first stays.
keep_first : Text → List Text → List Text
keep_first x [] = x ∷ []
keep_first x (y ∷ ys) = if text_eq x y then x ∷ ys else x ∷ y ∷ ys

unfoldable pub dedup : List Text → List Text
unfolding keep_first
dedup [] = []
dedup (x ∷ xs) = keep_first x (dedup xs)

-- Rising texts, with no two equal.
abbrev pub IsStrict : List Text → Type 0
IsStrict [] = Unit
IsStrict (x ∷ []) = Unit
IsStrict (x ∷ y ∷ r) = (text_le x y ≡ true) × (text_eq x y ≡ false) × IsStrict (y ∷ r)

abbrev HeadLe : Text → List Text → Type 0
HeadLe x [] = Unit
HeadLe x (y ∷ _) = text_le x y ≡ true

keep_first-HeadLe : (x y : Text) (ys : List Text) → text_le x y ≡ true → HeadLe x (keep_first y ys)
unfolding keep_first
keep_first-HeadLe x y [] h = h
keep_first-HeadLe x y (z ∷ ys) h = ground arith

dedup-HeadLe : (x : Text) (xs : List Text) → HeadLe x xs → HeadLe x (dedup xs)
unfolding dedup
dedup-HeadLe x [] h = tt
dedup-HeadLe x (y ∷ ys) h = keep_first-HeadLe x y (dedup ys) h

keep_first-IsStrict :
    (x : Text) (ys : List Text) → HeadLe x ys → IsStrict ys → IsStrict (keep_first x ys)
unfolding keep_first
keep_first-IsStrict x [] h k = tt
keep_first-IsStrict x (y ∷ []) h k = ground arith
keep_first-IsStrict x (y ∷ z ∷ r) h k = ground (arith, text_eq_iff x y)

-- Sorted texts without their repetitions rise strictly.
pub dedup-IsStrict : (xs : List Text) → IsSorted text_le xs → IsStrict (dedup xs)
unfolding dedup
dedup-IsStrict [] h = tt
dedup-IsStrict (x ∷ []) h = tt
dedup-IsStrict (x ∷ y ∷ ys) h =
    keep_first-IsStrict x (dedup (y ∷ ys)) (dedup-HeadLe x (y ∷ ys) h.0)
      (dedup-IsStrict (y ∷ ys) h.1)

text_le_trans : (s t u : Text) → text_le s t ≡ true → text_le t u ≡ true → text_le s u ≡ true
unfolding text_le
text_le_trans [] t u h k = refl
text_le_trans (a ∷ s) [] u h k = cc
text_le_trans (a ∷ s) (b ∷ t) [] h k = cc
text_le_trans (a ∷ s) (b ∷ t) (c ∷ u) h k = ground (arith, text_le_trans s t u)

text_le-antisym : (s t : Text) → text_le s t ≡ true → text_le t s ≡ true → s ≡ t
unfolding text_le
text_le-antisym [] [] h k = refl
text_le-antisym [] (b ∷ t) h k = cc
text_le-antisym (a ∷ s) [] h k = cc
text_le-antisym (a ∷ s) (b ∷ t) h k = ground (arith, text_le-antisym s t)

pub text_le-IsLinear : IsLinear text_le
text_le-IsLinear = record {
  total = text_le_total;
  trans = text_le_trans;
  antisym = text_le-antisym;
}

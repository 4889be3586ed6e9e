-- ===== src/Base/Sort/Members.antt =====
-- Sorting a list and leaving out its repetitions loses no element.
use mathlib.Core.Path.{◌≡◌, sym, ◌∙◌}
use mathlib.Core.List.{List, [], ◌∷◌, Memᴰ}
use mathlib.Core.Logic.{inl, inr}
use surreal_knowledge_base.Base.Tests.{Bool-cases}
use surreal_knowledge_base.Base.Chars.{Text, text_eq, text_eq_iff}
use surreal_knowledge_base.Base.Sort.{text_le, insert_sorted, sort_by, keep_first, dedup}

insert_sorted-Memᴰ :
    {a : Text} (x : Text) (ys : List Text) → Memᴰ a (x ∷ ys) → Memᴰ a (insert_sorted text_le x ys)
unfolding insert_sorted
insert_sorted-Memᴰ x [] m = m
insert_sorted-Memᴰ x (y ∷ ys) m = elim (Bool-cases (text_le x y)) [
  | inl e ↦ rw e m
  | inr e ↦ rw e (later m (insert_sorted-Memᴰ x ys))
]
  where
    later :
        {a : Text} {zs : List Text}
        → Memᴰ a (x ∷ y ∷ ys)
        → (Memᴰ a (x ∷ ys) → Memᴰ a zs)
        → Memᴰ a (y ∷ zs)
    later (Memᴰ.head e) below = Memᴰ.tail (below (Memᴰ.head e))
    later (Memᴰ.tail (Memᴰ.head e)) below = Memᴰ.head e
    later (Memᴰ.tail (Memᴰ.tail m)) below = Memᴰ.tail (below (Memᴰ.tail m))

pub sort_by-Memᴰ : {a : Text} (xs : List Text) → Memᴰ a xs → Memᴰ a (sort_by text_le xs)
unfolding sort_by
sort_by-Memᴰ [] m = elim m [ ]
sort_by-Memᴰ (x ∷ xs) (Memᴰ.head e) = insert_sorted-Memᴰ x (sort_by text_le xs) (Memᴰ.head e)
sort_by-Memᴰ (x ∷ xs) (Memᴰ.tail m) =
    insert_sorted-Memᴰ x (sort_by text_le xs) (Memᴰ.tail (sort_by-Memᴰ xs m))

keep_first-Memᴰ :
    {a : Text} (x : Text) (ys : List Text) → Memᴰ a (x ∷ ys) → Memᴰ a (keep_first x ys)
unfolding keep_first
keep_first-Memᴰ x [] m = m
keep_first-Memᴰ x (y ∷ ys) m = elim (Bool-cases (text_eq x y)) [
  | inl e ↦ rw e (same ((text_eq_iff x y).0 e) m)
  | inr e ↦ rw e m
]
  where
    same : {a : Text} → x ≡ y → Memᴰ a (x ∷ y ∷ ys) → Memᴰ a (x ∷ ys)
    same e (Memᴰ.head h) = Memᴰ.head h
    same e (Memᴰ.tail (Memᴰ.head h)) = Memᴰ.head (h ∙ sym e)
    same e (Memᴰ.tail (Memᴰ.tail m)) = Memᴰ.tail m

pub dedup-Memᴰ : {a : Text} (xs : List Text) → Memᴰ a xs → Memᴰ a (dedup xs)
unfolding dedup
dedup-Memᴰ [] m = elim m [ ]
dedup-Memᴰ (x ∷ xs) (Memᴰ.head e) = keep_first-Memᴰ x (dedup xs) (Memᴰ.head e)
dedup-Memᴰ (x ∷ xs) (Memᴰ.tail m) = keep_first-Memᴰ x (dedup xs) (Memᴰ.tail (dedup-Memᴰ xs m))

-- ===== src/Search/Fusion/Ranking.antt =====
-- The ranking of the fused hits (crates/skb-core/src/search.rs): sorted, at most `top_k`, the same
-- for every order in which the hash map gives its entries, and with highlights only where they are due.
use surreal_knowledge_base.Base.{
  length-map, ℕ, zero, suc, ◌≤◌, ◌≡◌, refl, ap, ◌∙◌, sym, Text, Option, none, some, List, [], ◌∷◌,
  map, Bool, true, false, take, length, length-take-le, All, contains, arith, ◌⊎◌, inl, inr,
  Bool-cases,
}
use mathlib.Core.List.{Permᴰ}
use surreal_knowledge_base.Base.Float.{Float, IsOrdered, Order, less, equal, greater}
use surreal_knowledge_base.Base.Sort.{
  sort_by, insert_sorted, IsLinear, sort_by-eq_of_Permᴰ, text_le, text_le-IsLinear,
}
use surreal_knowledge_base.Search.Terms.{Unicode, present_terms-All}
use surreal_knowledge_base.Search.Hits.{Row, SearchHit}
use surreal_knowledge_base.Search.Fusion.{
  RankedHit, fuse, by_id, key_le, key, entry_le, to_hit, fused_highlights, ranking, merge_rows,
}

module _ {F : Type 0} (f : Float F) (ordered : IsOrdered f) where
  -- What the comparison of two scores says of the comparison the other way round.
  data Compared (s t : F) : Option Order → Option Order → Type 0 where
    below : Compared s t (some less) (some greater)
    above : Compared s t (some greater) (some less)
    same : s ≡ t → Compared s t (some equal) (some equal)

  compared : (s t : F) → Compared s t (f.partial_cmp s t) (f.partial_cmp t s)
  compared s t = go (f.partial_cmp s t) refl
    where
      go :
          (o : Option Order)
          → f.partial_cmp s t ≡ o
          → Compared s t (f.partial_cmp s t) (f.partial_cmp t s)
      go none e = absurd (ordered.comparable s t e)
      go (some less) e = rw (e, (ordered.flip_less s t).0 e) below
      go (some greater) e = rw (e, (ordered.flip_less t s).1 e) above
      go (some equal) e =
          let q = (ordered.equal_iff s t).0 e in rw (e, (ordered.equal_iff t s).1 (sym q)) (same q)

  total_by :
      {s t : F} {o p : Option Order} (a b : Text)
      → Compared s t o p
      → by_id a b p ≡ false
      → by_id b a o ≡ true
  unfolding by_id
  total_by a b below h = refl
  total_by a b above h = cc
  total_by a b (same q) h = text_le-IsLinear.total a b h

  key_le_total : (x y : Text × F) → key_le f x y ≡ false → key_le f y x ≡ true
  unfolding key_le
  key_le_total (a, s) (b, t) h = total_by a b (compared s t) h

  antisym_by :
      {s t : F} {o p : Option Order} (a b : Text)
      → Compared s t o p
      → by_id a b p ≡ true
      → by_id b a o ≡ true
      → ◌≡◌ {A = Text × F} (a, s) (b, t)
  unfolding by_id
  antisym_by a b below h k = cc
  antisym_by a b above h k = cc
  antisym_by a b (same q) h k = let p = text_le-IsLinear.antisym a b h k in λ i. (p i, q i)

  key_le-antisym : (x y : Text × F) → key_le f x y ≡ true → key_le f y x ≡ true → x ≡ y
  unfolding key_le
  key_le-antisym (a, s) (b, t) h k = antisym_by a b (compared s t) h k

  -- Why an entry may stand before another: a higher score, or the same score and a smaller id.
  Before : Text → Text → F → F → Type 0
  Before a b s t = (f.partial_cmp t s ≡ some less) ⊎ ((t ≡ s) × (text_le a b ≡ true))

  before : (a b : Text) (s t : F) → by_id a b (f.partial_cmp t s) ≡ true → Before a b s t
  unfolding Before by_id
  before a b s t h = ground (arith, ordered.comparable t s, (ordered.equal_iff t s).0)

  of_before : (a b : Text) (s t : F) → Before a b s t → by_id a b (f.partial_cmp t s) ≡ true
  unfolding Before by_id
  of_before a b s t (inl e) = rw e
  of_before a b s t (inr (e, h)) = rw ((ordered.equal_iff t s).1 e) h

  before_trans : (a b c : Text) (s t u : F) → Before a b s t → Before b c t u → Before a c s u
  unfolding Before
  before_trans a b c s t u (inl h) (inl k) = inl (ordered.trans_less u t s k h)
  before_trans a b c s t u (inl h) (inr (e, k)) = inl (rw e h)
  before_trans a b c s t u (inr (e, h)) (inl k) = inl (rw (← e) k)
  before_trans a b c s t u (inr (e, h)) (inr (d, k)) = inr (d ∙ e, text_le-IsLinear.trans a b c h k)

  key_le_trans :
      (x y z : Text × F) → key_le f x y ≡ true → key_le f y z ≡ true → key_le f x z ≡ true
  unfolding key_le
  key_le_trans (a, s) (b, t) (c, u) h k =
      of_before a c s u (before_trans a b c s t u (before a b s t h) (before b c t u k))

  key_le-IsLinear : IsLinear (key_le f)
  key_le-IsLinear = record { total = key_le_total; trans = key_le_trans; antisym = key_le-antisym }

  insert_key :
      (x : Text × RankedHit F) (xs : List (Text × RankedHit F))
      → map (key f) (insert_sorted (entry_le f) x xs)
        ≡ insert_sorted (key_le f) (key f x) (map (key f) xs)
  unfolding insert_sorted entry_le
  insert_key x [] = refl
  insert_key x (y ∷ ys) = elim (Bool-cases (key_le f (key f x) (key f y))) [
    | inl e ↦ rw e
    | inr e ↦ rw e (ap (λ l. key f y ∷ l) (insert_key x ys))
  ]

  sort_key :
      (xs : List (Text × RankedHit F))
      → map (key f) (sort_by (entry_le f) xs) ≡ sort_by (key_le f) (map (key f) xs)
  unfolding sort_by
  sort_key [] = refl
  sort_key (x ∷ xs) =
      insert_key x (sort_by (entry_le f) xs) ∙ ap (insert_sorted (key_le f) (key f x)) (sort_key xs)

  map-Permᴰ :
      {xs ys : List (Text × RankedHit F)} → Permᴰ xs ys → Permᴰ (map (key f) xs) (map (key f) ys)
  map-Permᴰ Permᴰ.nil = Permᴰ.nil
  map-Permᴰ (Permᴰ.cons e p) = Permᴰ.cons (ap (key f) e) (map-Permᴰ p)
  map-Permᴰ (Permᴰ.swap p q) = Permᴰ.swap (ap (key f) p) (ap (key f) q)
  map-Permᴰ (Permᴰ.trans p q) = Permᴰ.trans (map-Permᴰ p) (map-Permᴰ q)

map-take : {A B : Type 0} (g : A → B) (n : ℕ) (xs : List A) → map g (take n xs) ≡ take n (map g xs)
map-take g zero xs = refl
map-take g (suc n) [] = refl
map-take g (suc n) (x ∷ xs) = ap (λ l. g x ∷ l) (map-take g n xs)

-- With comparable scores, the ids and scores that are kept, and their order, do not depend on the
-- order in which the hash map gives its entries.
pub ranking-order_free :
    {F : Type 0} (f : Float F) (top_k : ℕ) {xs ys : List (Text × RankedHit F)}
    → IsOrdered f
    → Permᴰ xs ys
    → map (key f) (ranking f top_k xs) ≡ map (key f) (ranking f top_k ys)
unfolding ranking
ranking-order_free f top_k {xs} {ys} ordered p =
    map-take (key f) top_k _
    ∙ ap (take top_k) (
        sort_key f ordered xs
        ∙ sort_by-eq_of_Permᴰ (key_le f) (key_le-IsLinear f ordered) (map-Permᴰ f ordered p)
        ∙ sym (sort_key f ordered ys))
    ∙ sym (map-take (key f) top_k _)

-- The highlights of a hit are absent, or terms that its own content holds.
abbrev pub HasOwnHighlights : {F : Type 0} → Unicode → SearchHit F → Type 0
HasOwnHighlights u hit =
    (hit.highlights ≡ none)
    ⊎ ((ts : List Text) × (hit.highlights ≡ some ts)
        × All (λ t. contains t (u.to_lowercase hit.content) ≡ true) ts)

fused_highlights_own :
    {F : Type 0} (f : Float F) (u : Unicode) (terms : List Text) (e : Text × RankedHit F)
    (matched : Bool)
    → e.1.keyword_matched ≡ matched
    → HasOwnHighlights u (to_hit f u terms e)
unfolding to_hit
fused_highlights_own f u terms (id, hit) true e =
    inr (_, ap (fused_highlights f u terms hit.content) e, present_terms-All u terms hit.content)
fused_highlights_own f u terms (id, hit) false e =
    inl (ap (fused_highlights f u terms hit.content) e)

own_highlights :
    {F : Type 0} (f : Float F) (u : Unicode) (terms : List Text) (xs : List (Text × RankedHit F))
    → All (HasOwnHighlights u) (map (to_hit f u terms) xs)
own_highlights f u terms [] = tt
own_highlights f u terms (x ∷ xs) =
    (fused_highlights_own f u terms x x.1.keyword_matched refl, own_highlights f u terms xs)

-- The fusion returns at most `top_k` hits, and a hit's highlights are absent or terms that
-- its own content holds.
pub merge_rows_bounded :
    {F : Type 0} (f : Float F) (u : Unicode) (rrf_k top_k : ℕ) (terms : List Text)
    (vrows krows : List (Row F))
    → (length (merge_rows f u rrf_k top_k terms vrows krows) ≤ top_k)
      × All (HasOwnHighlights u) (merge_rows f u rrf_k top_k terms vrows krows)
unfolding merge_rows
merge_rows_bounded f u rrf_k top_k terms vrows krows = (
  omega (
    arith,
    length-map (to_hit f u terms) (take top_k (sort_by (entry_le f) (fuse f rrf_k vrows krows))),
    length-take-le top_k (sort_by (entry_le f) (fuse f rrf_k vrows krows)),
  ),
  own_highlights f u terms _,
)

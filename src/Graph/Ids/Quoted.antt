-- ===== src/Graph/Ids/Quoted.antt =====
-- The quoted id of an entity (crates/skb-core/src/graph.rs) is read back as the cleaned name.
use mathlib.Core.List.{Memᴰ}
use surreal_knowledge_base.Base.{
  ℕ, ◌≡◌, ◌≢◌, ◌↔◌, refl, sym, ap, subst, Text, lit, strip_prefix, Option, none, some, [], ◌∷◌,
  ◌++◌, ◌==◌, ==_iff, false, ◌||◌, All, arith, if◌then◌else◌, Bool-cases, inl, inr,
}
use surreal_knowledge_base.Graph.Ids.{is_stripped, clean_entity_name, entity_rid}

-- A character that cannot end or escape the quoted key of an id: no angle bracket ⟨ or ⟩ (U+27E8 and
-- U+27E9), no backslash and no single quote.
abbrev pub IsSafe : ℕ → Type 0
IsSafe c = (c ≢ 0x27e8) × (c ≢ 0x27e9) × (c ≢ 92) × (c ≢ 39)

-- A quoted key without escapes: up to the first closing bracket, with nothing after it.
unfoldable pub read_key : Text → Option Text
read_key [] = none
read_key (c ∷ s) =
    let rest = read_key s in
    if c == 0x27e9
    then (elim s [ [] ↦ some [] | _ ∷ _ ↦ none ])
    else if c == 0x27e8 || c == 92 || c == 39
    then none
    else elim rest [ none ↦ none | some key ↦ some (c ∷ key) ]

-- The key of the id of an entity, in quotes.
unfoldable pub read_rid : Text → Option Text
unfolding read_key
read_rid t = elim (strip_prefix (lit "entity:⟨") t) [ none ↦ none | some s ↦ read_key s ]

unequal : (a b : ℕ) → (a == b) ≡ false → a ≢ b
unequal a b h e = ground (arith, ==_iff a b)

apart : (a b : ℕ) → a ≢ b → (a == b) ≡ false
apart a b h = elim (Bool-cases (a == b)) [ inl e ↦ absurd (h ((==_iff a b).0 e)) | inr e ↦ e ]

IsSafe-of_kept : (c : ℕ) → is_stripped c ≡ false → IsSafe c
IsSafe-of_kept c h = (
  unequal c 0x27e8 (ground arith),
  unequal c 0x27e9 (ground arith),
  unequal c 92 (ground arith),
  unequal c 39 (ground arith),
)

kept_of_safe : (c : ℕ) → IsSafe c → is_stripped c ≡ false
kept_of_safe c (a, b, d, e) =
    ground (arith, apart c 0x27e8 a, apart c 0x27e9 b, apart c 92 d, apart c 39 e)

clean-IsSafe : (s : Text) → All IsSafe (clean_entity_name s)
unfolding clean_entity_name
clean-IsSafe [] = tt
clean-IsSafe (c ∷ s) = elim (Bool-cases (is_stripped c)) [
  | inl e ↦ rw e (clean-IsSafe s)
  | inr e ↦ rw e (IsSafe-of_kept c e, clean-IsSafe s)
]

clean_of_safe : (s : Text) → All IsSafe s → clean_entity_name s ≡ s
unfolding clean_entity_name
clean_of_safe [] h = refl
clean_of_safe (c ∷ s) (h, k) = rw (kept_of_safe c h) (ap (λ t. c ∷ t) (clean_of_safe s k))

-- Only characters that are not safe are left out.
clean-Memᴰ : (c : ℕ) (s : Text) → IsSafe c → Memᴰ c s → Memᴰ c (clean_entity_name s)
unfolding clean_entity_name
clean-Memᴰ c [] h m = elim m [ ]
clean-Memᴰ c (d ∷ s) h (Memᴰ.head e) =
    rw (subst (λ x. is_stripped x ≡ false) e (kept_of_safe c h)) (Memᴰ.head e)
clean-Memᴰ c (d ∷ s) h (Memᴰ.tail m) = elim (Bool-cases (is_stripped d)) [
  | inl e ↦ rw e (clean-Memᴰ c s h m)
  | inr e ↦ rw e (Memᴰ.tail (clean-Memᴰ c s h m))
]

read_key-quoted : (s : Text) → All IsSafe s → read_key (s ++ (0x27e9 ∷ [])) ≡ some s
unfolding read_key
read_key-quoted [] h = refl
read_key-quoted (c ∷ s) ((a, b, d, e), h) =
    rw (apart c 0x27e9 b, apart c 0x27e8 a, apart c 92 d, apart c 39 e, read_key-quoted s h) refl

Memᴰ-clean : (c : ℕ) (s : Text) → Memᴰ c (clean_entity_name s) → Memᴰ c s × IsSafe c
unfolding clean_entity_name
Memᴰ-clean c [] m = elim m [ ]
Memᴰ-clean c (d ∷ s) m = elim (Bool-cases (is_stripped d)) [
  | inl e ↦ let (found, safe) = Memᴰ-clean c s (rw e at m) in (Memᴰ.tail found, safe)
  | inr e ↦ among e (rw e at m) (Memᴰ-clean c s)
]
  where
    among :
        is_stripped d ≡ false
        → Memᴰ c (d ∷ clean_entity_name s)
        → (Memᴰ c (clean_entity_name s) → Memᴰ c s × IsSafe c)
        → Memᴰ c (d ∷ s) × IsSafe c
    among e (Memᴰ.head h) below = (Memᴰ.head h, subst IsSafe (sym h) (IsSafe-of_kept d e))
    among e (Memᴰ.tail m) below = let (found, safe) = below m in (Memᴰ.tail found, safe)

-- A cleaned name holds no bracket, backslash or quote, and every other character of the name; it is the
-- name itself exactly if the name has none of them. So the quoted id of an entity is read back, without
-- escapes, as the id with the cleaned name, and nothing follows it.
pub clean_entity_name-IsSafe :
    (name : Text) (c : ℕ)
    → All IsSafe (clean_entity_name name)
      × (Memᴰ c (clean_entity_name name) ↔ (Memᴰ c name × IsSafe c))
      × ((clean_entity_name name ≡ name) ↔ All IsSafe name)
      × (read_rid (entity_rid name) ≡ some (clean_entity_name name))
unfolding entity_rid read_rid strip_prefix lit
clean_entity_name-IsSafe name c = (
  clean-IsSafe name,
  (Memᴰ-clean c name, λ (m, h). clean-Memᴰ c name h m),
  (λ e. subst (All IsSafe) e (clean-IsSafe name), clean_of_safe name),
  read_key-quoted (clean_entity_name name) (clean-IsSafe name),
)

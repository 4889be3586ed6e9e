-- ===== src/Graph/Extract.antt =====
-- `extract_entities`, `dedup_entities`, `extract_sections` of crates/skb-core/src/graph.rs. The
-- regular expressions are the `regex` crate's: what they capture in a text is a parameter.
use surreal_knowledge_base.Base.{
  ℕ, ◌≡◌, ap₂, sym, ◌∙◌, false≢true, text_eq_self, Text, lit, trim, trim_start, text_eq,
  text_eq_iff, is_empty, drop_bytes, Option, none, some, List, [], ◌∷◌, ◌++◌, map, ltb, Bool, true,
  false, not, ◌&&◌, ◌||◌, filter_by, any_by, All, length, arith, if◌then◌else◌, Bool-cases, inl,
  inr,
}
use surreal_knowledge_base.Tokenize.Headings.{heading_starts, first_line}
use surreal_knowledge_base.Graph.Requests.{EntityInfo}
use surreal_knowledge_base.Graph.Frontmatter.{frontmatter_list}

pub record Patterns : Type 0 where
  -- `\[([^\]]+)\]\(([^)]+)\)`: the first group of each match.
  pub links : Text → List Text
  -- `\[\[([^\]|]+)(?:\|([^\]]+))?\]\]`: the target and, if there is one, the alias of each match.
  pub wiki_links : Text → List (Text × Option Text)
  -- `(?:^|\s)#([a-zA-Z][\w-]{1,})`: the group of each match.
  pub tags : Text → List Text
  -- `^(#{1,6})\s+(.+)` on one line: the number of hashes and the title.
  pub heading : Text → Option (ℕ × Text)

abbrev entity : Text → Text → EntityInfo
entity name kind = record { name = name; kind = kind; description = none }

-- The alias if it is not blank, else the target.
wiki_name : Text × Option Text → Text
wiki_name (target, none) = trim target
wiki_name (target, some alias) = if is_empty (trim alias) then trim target else trim alias

abbrev nonempty : List Text → List Text
nonempty = filter_by (λ n. not (is_empty n))

-- The heading lines of a text. A heading start is a character boundary, so the slice is there.
unfoldable pub heading_lines : Text → List ℕ → List Text
heading_lines content [] = []
heading_lines content (off ∷ offs) = elim (drop_bytes off content) [
  | none ↦ heading_lines content offs
  | some rest ↦ trim_start (first_line rest) ∷ heading_lines content offs
]

section_entity : Option (ℕ × Text) → List EntityInfo
section_entity none = []
section_entity (some (level, title)) =
    if ltb 2 (length title) then entity (trim title) (lit "section") ∷ [] else []

section_entities : Patterns → List Text → List EntityInfo
section_entities p [] = []
section_entities p (line ∷ ls) = section_entity (p.heading line) ++ section_entities p ls

abbrev pub same_entity : EntityInfo → EntityInfo → Bool
same_entity a b = text_eq a.name b.name && text_eq a.kind b.kind

-- The `filter` over a set of the names and kinds seen.
dedup_from : List EntityInfo → List EntityInfo → List EntityInfo
dedup_from seen [] = []
dedup_from seen (e ∷ es) =
    let onward = e ∷ dedup_from (e ∷ seen) es in
    let skipped = dedup_from seen es in if any_by (same_entity e) seen then skipped else onward

unfoldable pub dedup_entities : List EntityInfo → List EntityInfo
unfolding dedup_from
dedup_entities es = dedup_from [] es

unfoldable pub collected_entities : Patterns → Text → List EntityInfo
unfolding wiki_name section_entities section_entity
collected_entities p content =
    map (λ n. entity n (lit "reference")) (p.links content)
    ++ (map (λ n. entity n (lit "reference")) (nonempty (map wiki_name (p.wiki_links content)))
        ++ (map (λ n. entity n (lit "tag")) (frontmatter_list content (lit "tags"))
            ++ (map (λ n. entity n (lit "alias")) (frontmatter_list content (lit "aliases"))
                ++ (map (λ n. entity n (lit "tag")) (p.tags content)
                    ++ section_entities p (heading_lines content (heading_starts content))))))

-- `extract_entities`
unfoldable pub extract_entities : Patterns → Text → List EntityInfo
extract_entities p content = dedup_entities (collected_entities p content)

pub record Section : Type 0 where
  pub name : Text
  pub level : ℕ

section_of : Option (ℕ × Text) → List Section
section_of none = []
section_of (some (level, title)) =
    if ltb 2 (length (trim title)) then record { name = trim title; level = level } ∷ [] else []

sections_of : Patterns → List Text → List Section
sections_of p [] = []
sections_of p (line ∷ ls) = section_of (p.heading line) ++ sections_of p ls

-- `extract_sections`
unfoldable pub extract_sections : Patterns → Text → List Section
unfolding sections_of section_of
extract_sections p content = sections_of p (heading_lines content (heading_starts content))

-- No entity is like an earlier one in name and kind.
abbrev pub AreDistinct : List EntityInfo → Type 0
AreDistinct [] = Unit
AreDistinct (e ∷ es) = All (λ d. same_entity d e ≡ false) es × AreDistinct es

any_by-same :
    (e s : EntityInfo) (seen : List EntityInfo)
    → same_entity e s ≡ true
    → any_by (same_entity e) seen ≡ any_by (same_entity s) seen
any_by-same e s seen h =
    ap₂ (λ n k. any_by (λ d. text_eq n d.name && text_eq k d.kind) seen)
      ((text_eq_iff e.name s.name).0 (ground arith)) ((text_eq_iff e.kind s.kind).0 (ground arith))

new_ne_seen :
    (e s : EntityInfo) (seen : List EntityInfo)
    → any_by (same_entity s) seen ≡ true
    → any_by (same_entity e) seen ≡ false
    → same_entity e s ≡ false
new_ne_seen e s seen h k = elim (Bool-cases (same_entity e s)) [
  | inl same ↦ absurd (false≢true (sym k ∙ any_by-same e s seen same ∙ h))
  | inr other ↦ other
]

not_seen :
    (seen es : List EntityInfo) (s : EntityInfo)
    → any_by (same_entity s) seen ≡ true
    → All (λ d. same_entity d s ≡ false) (dedup_from seen es)
unfolding dedup_from
not_seen seen [] s h = tt
not_seen seen (e ∷ es) s h = elim (Bool-cases (any_by (same_entity e) seen)) [
  | inl old ↦ rw old (not_seen seen es s h)
  | inr new ↦ rw new (new_ne_seen e s seen h new, not_seen (e ∷ seen) es s (ground arith))
]

same_entity_self : (e : EntityInfo) → same_entity e e ≡ true
same_entity_self e = rw (text_eq_self e.name) (text_eq_self e.kind)

dedup_from-AreDistinct : (seen es : List EntityInfo) → AreDistinct (dedup_from seen es)
unfolding dedup_from
dedup_from-AreDistinct seen [] = tt
dedup_from-AreDistinct seen (e ∷ es) = elim (Bool-cases (any_by (same_entity e) seen)) [
  | inl old ↦ rw old (dedup_from-AreDistinct seen es)
  | inr new ↦
      rw new
        (not_seen (e ∷ seen) es e (rw (same_entity_self e)), dedup_from-AreDistinct (e ∷ seen) es)
]

-- Whatever an entity that repeats one of those seen stands for is among those seen already.
seen_again :
    (e : EntityInfo) (es : List EntityInfo) (x : EntityInfo) (seen : List EntityInfo)
    → any_by (same_entity e) seen ≡ true
    → any_by (same_entity x) seen || any_by (same_entity x) (e ∷ es) ≡ true
    → any_by (same_entity x) seen || any_by (same_entity x) es ≡ true
seen_again e es x seen old h = elim (Bool-cases (same_entity x e)) [
  | inl same ↦ rw (any_by-same x e seen same, old)
  | inr other ↦ ground (arith)
]

-- What is sought is among the entities seen, or among those that are kept.
dedup_from-known :
    (seen es : List EntityInfo) (x : EntityInfo)
    → any_by (same_entity x) seen || any_by (same_entity x) es ≡ true
    → any_by (same_entity x) seen || any_by (same_entity x) (dedup_from seen es) ≡ true
unfolding dedup_from
dedup_from-known seen [] x h = h
dedup_from-known seen (e ∷ es) x h = elim (Bool-cases (any_by (same_entity e) seen)) [
  | inl old ↦ rw old (dedup_from-known seen es x (seen_again e es x seen old h))
  | inr new ↦ rw new (ground (arith, dedup_from-known (e ∷ seen) es x))
]

-- What is kept was there.
dedup_from-sub :
    (seen es : List EntityInfo) (x : EntityInfo)
    → any_by (same_entity x) (dedup_from seen es) ≡ true
    → any_by (same_entity x) es ≡ true
unfolding dedup_from
dedup_from-sub seen [] x h = h
dedup_from-sub seen (e ∷ es) x h = elim (Bool-cases (any_by (same_entity e) seen)) [
  | inl old ↦ ground (arith, dedup_from-sub seen es x)
  | inr new ↦ ground (arith, dedup_from-sub (e ∷ seen) es x)
]

-- The entities of a text are distinct, in name and kind together, and are those that the extraction
-- rules found, no more and no fewer.
pub extract_entities_exact :
    (p : Patterns) (content : Text) (x : EntityInfo)
    → AreDistinct (extract_entities p content)
      × (any_by (same_entity x) (extract_entities p content)
          ≡ any_by (same_entity x) (collected_entities p content))
unfolding extract_entities dedup_entities
extract_entities_exact p content x =
    let es = collected_entities p content in
    (dedup_from-AreDistinct [] es, ground (arith, dedup_from-sub [] es x, dedup_from-known [] es x))

-- ===== src/Graph/Sections.antt =====
-- The section hierarchy of `link_section_hierarchy` in crates/skb-core/src/graph.rs: a stack of the
-- open sections gives each section its parent.
pub mod Keeps
use surreal_knowledge_base.Base.{
  ℕ, ◌≤◌, ◌≡◌, refl, ap, ◌∙◌, Text, lit, Option, none, some, List, [], ◌∷◌, ◌++◌, ltb, arith,
  if◌then◌else◌, Bool-cases, inl, inr, tests,
}
use surreal_knowledge_base.Error.{SkbError, Outcome, ok, ◌>>=◌, map_err}
use surreal_knowledge_base.Graph.Ids.{RecordId, entity_record_id}
use surreal_knowledge_base.Graph.Extract.{Patterns, Section, extract_sections}
use surreal_knowledge_base.Search.Filter.{db_error}

-- The open sections, the innermost first (the last of the code's vector).
abbrev pub Stack : Type 0
Stack = List Section

-- `while let Some((_, level)) = stack.last()`: closes the sections of the same or a deeper level.
unfoldable pub pop_to : ℕ → Stack → Stack
pop_to level [] = []
pop_to level (s ∷ stack) =
    let rest = pop_to level stack in if ltb s.level level then s ∷ stack else rest

abbrev pub top : Stack → Option Section
top [] = none
top (s ∷ _) = some s

-- The writes of one section, in the transaction.
pub data Write : Type 0 where
  upsert_section : RecordId → Text → Write
  -- Deletes the child's part-of edges and relates it to its parent.
  relate_part_of : RecordId → RecordId → Write

-- A statement of the transaction can fail when it is sent, or at `check()`.
abbrev pub Exec : Type 0 → Type 0
Exec S = Write → S → Outcome Text (Outcome Text S)

module _ {S : Type 0} (exec : Exec S) where
  write : Text → Write → S → Outcome SkbError S
  write label w s = do
    r ← map_err (db_error label) (exec w s)
    map_err (db_error (label ++ lit " check")) r

  unfoldable pub link_to_parent : Option Section → Section → S → Outcome SkbError S
  unfolding write
  link_to_parent none section s = ok s
  link_to_parent (some parent) section s = do
    parent_id ← entity_record_id parent.name
    child_id ← entity_record_id section.name
    s ← write (lit "section upsert") (upsert_section parent_id parent.name) s
    s ← write (lit "section upsert") (upsert_section child_id section.name) s
    write (lit "section link") (relate_part_of child_id parent_id) s

  -- The loop over the sections.
  unfoldable pub link_sections : Stack → List Section → S → Outcome SkbError S
  link_sections stack [] s = ok s
  link_sections stack (section ∷ rest) s =
      let open_sections = pop_to section.level stack in
      link_to_parent (top open_sections) section s >>= λ s.
      link_sections (section ∷ open_sections) rest s

-- `link_section_hierarchy`
unfoldable pub link_section_hierarchy :
    {S : Type 0} → Exec S → Patterns → Text → S → Outcome SkbError S
link_section_hierarchy exec p content s = link_sections exec [] (extract_sections p content) s

-- The description: the nearest earlier section of a lower level, the latest section first.
abbrev pub nearest_lower : ℕ → List Section → Option Section
nearest_lower level [] = none
nearest_lower level (s ∷ earlier) =
    if ltb s.level level then some s else nearest_lower level earlier

-- Linking by the description: every section to its nearest earlier section of a lower level.
module _ {S : Type 0} (exec : Exec S) where
  unfoldable pub link_nearest : List Section → List Section → S → Outcome SkbError S
  link_nearest earlier [] s = ok s
  link_nearest earlier (section ∷ rest) s =
      link_to_parent exec (nearest_lower section.level earlier) section s >>= λ s.
      link_nearest (section ∷ earlier) rest s

-- A stack answers for the sections read so far if it has their nearest one below every level.
abbrev AnswersFor : Stack → List Section → Type 0
AnswersFor stack earlier = (level : ℕ) → nearest_lower level stack ≡ nearest_lower level earlier

top-pop_to : (level : ℕ) (stack : Stack) → top (pop_to level stack) ≡ nearest_lower level stack
unfolding pop_to
top-pop_to level [] = refl
top-pop_to level (s ∷ stack) = ground (arith, top-pop_to level stack)

-- Closing deeper sections does not matter to levels up to the section's own.
nearest_lower-pop_to :
    (level l : ℕ) (stack : Stack)
    → l ≤ level
    → nearest_lower l (pop_to level stack) ≡ nearest_lower l stack
unfolding pop_to
nearest_lower-pop_to level l [] h = refl
nearest_lower-pop_to level l (s ∷ stack) h = ground (arith, nearest_lower-pop_to level l stack)

push-AnswersFor :
    (section : Section) (stack : Stack) (earlier : List Section)
    → AnswersFor stack earlier
    → AnswersFor (section ∷ pop_to section.level stack) (section ∷ earlier)
push-AnswersFor section stack earlier h level = elim (Bool-cases (ltb section.level level)) [
  | inl below ↦ rw below
  | inr not_below ↦
      rw not_below (nearest_lower-pop_to section.level level stack (omega tests) ∙ h level)
]

-- Two continuations that agree on every state agree after a first step.
>>=-agree :
    {S : Type 0} (m : Outcome SkbError S) (f g : S → Outcome SkbError S)
    → ((s : S) → f s ≡ g s)
    → (m >>= f) ≡ (m >>= g)
>>=-agree m f g h = ap (λ k. m >>= k) (λ i s. h s i)

stack-eq-earlier :
    {S : Type 0} (exec : Exec S) (sections earlier : List Section) (stack : Stack) (s : S)
    → AnswersFor stack earlier
    → link_sections exec stack sections s ≡ link_nearest exec earlier sections s
unfolding link_sections link_nearest
stack-eq-earlier exec [] earlier stack s h = refl
stack-eq-earlier exec (section ∷ rest) earlier stack s h =
    rw (top-pop_to section.level stack, h section.level)
      (>>=-agree (link_to_parent exec (nearest_lower section.level earlier) section s)
        (link_sections exec (section ∷ pop_to section.level stack) rest)
        (link_nearest exec (section ∷ earlier) rest)
        (λ s.
          stack-eq-earlier exec rest (section ∷ earlier) (section ∷ pop_to section.level stack) s
            (push-AnswersFor section stack earlier h)))

-- Whatever the store does with each write, the stack of open sections links every section of the text
-- to the nearest section before it that has a lower level, with the same writes in the same order and
-- the same outcome as searching for that section in all the earlier ones.
pub link_section_hierarchy-link_nearest :
    {S : Type 0} (exec : Exec S) (p : Patterns) (content : Text) (s : S)
    → link_section_hierarchy exec p content s ≡ link_nearest exec [] (extract_sections p content) s
unfolding link_section_hierarchy
link_section_hierarchy-link_nearest exec p content s =
    stack-eq-earlier exec (extract_sections p content) [] [] s (λ level. refl)

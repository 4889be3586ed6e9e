-- ===== src/Graph/Sections/Keeps.antt =====
-- What the section links (crates/skb-core/src/graph.rs) keep if each of their writes does.
use surreal_knowledge_base.Base.{◌≡◌, subst, Text, lit, Option, none, some, List, [], ◌∷◌}
use surreal_knowledge_base.Error.{ok, checked-eq-ok, >>=-eq-ok, ok-injective}
use surreal_knowledge_base.Graph.Ids.{entity_record_id}
use surreal_knowledge_base.Graph.Extract.{Patterns, Section, extract_sections}
use surreal_knowledge_base.Graph.Sections.{
  Stack, pop_to, top, Write, upsert_section, Exec, write, link_to_parent, link_sections,
  link_section_hierarchy,
}

module _ {S : Type 0} (P : S → Type 0) (exec : Exec S) where
  -- Every write that is accepted keeps the property.
  pub record IsKept : Type 0 where
    pub kept : (w : Write) (s t : S) → exec w s ≡ ok (ok t) → P s → P t

  module _ (keeps : IsKept) where
    write-kept : (label : Text) (w : Write) (s t : S) → write exec label w s ≡ ok t → P s → P t
    unfolding write
    write-kept label w s t h p = keeps.kept w s t (checked-eq-ok _ _ (exec w s) t h) p

    link_to_parent-kept :
        (parent : Option Section) (section : Section) (s t : S)
        → link_to_parent exec parent section s ≡ ok t
        → P s
        → P t
    unfolding link_to_parent
    link_to_parent-kept none section s t h p = subst P (ok-injective h) p
    link_to_parent-kept (some parent) section s t h p =
        let (parent_id, _, h) = >>=-eq-ok (entity_record_id parent.name) _ h in
        let (child_id, _, h) = >>=-eq-ok (entity_record_id section.name) _ h in
        let (u, first, h) =
          >>=-eq-ok (write exec (lit "section upsert") (upsert_section parent_id parent.name) s) _
            h in
        let (v, second, h) =
          >>=-eq-ok (write exec (lit "section upsert") (upsert_section child_id section.name) u) _
            h in
        write-kept _ _ v t h (write-kept _ _ u v second (write-kept _ _ s u first p))

    link_sections-kept :
        (stack : Stack) (sections : List Section) (s t : S)
        → link_sections exec stack sections s ≡ ok t
        → P s
        → P t
    unfolding link_sections
    link_sections-kept stack [] s t h p = subst P (ok-injective h) p
    link_sections-kept stack (section ∷ rest) s t h p =
        let open_sections = pop_to section.level stack in
        let (u, first, h) = >>=-eq-ok (link_to_parent exec (top open_sections) section s) _ h in
        link_sections-kept (section ∷ open_sections) rest u t h
          (link_to_parent-kept (top open_sections) section s u first p)

    pub link_section_hierarchy-kept :
        (p : Patterns) (content : Text) (s t : S)
        → link_section_hierarchy exec p content s ≡ ok t
        → P s
        → P t
    unfolding link_section_hierarchy
    link_section_hierarchy-kept p content s t h q =
        link_sections-kept [] (extract_sections p content) s t h q

-- ===== src/Graph/Query/Loops.antt =====
-- The loops over the names that one query returns, in `graph_query` (crates/skb-core/src/graph.rs).
use surreal_knowledge_base.Base.{
  ℕ, zero, suc, ◌≤◌, ◌<◌, ◌≡◌, refl, ap, ◌∙◌, Text, text_eq, List, [], ◌∷◌, map, length, get_elem?,
  any_by, All-append, leb, ltb, Bool, true, false, Bool-cases, inl, inr, arith, tests,
}
use surreal_knowledge_base.Search.Hits.{text_or_empty}
use surreal_knowledge_base.Graph.Ids.{entity_rid}
use surreal_knowledge_base.Graph.Rows.{GraphNode, Walk, NextRow, EntityRow, to_string_vec}
use surreal_knowledge_base.Graph.Query.{
  push_node, move_to, is_emitted, visit_mention, mention_names, unless_broken, mention_rows,
  visit_neighbour, neighbour_names, push_start,
}
use surreal_knowledge_base.Graph.Query.Emitted.{Keeps, filter_by-snoc_not, emit-Keeps}

pub visit_mention-Keeps :
    (limit depth : ℕ) (document relation name kind : Text) (w : Walk)
    → 0 < depth
    → length w.emitted < limit
    → Keeps limit depth w
    → Keeps limit depth (visit_mention document relation name kind w)
unfolding visit_mention is_emitted move_to
visit_mention-Keeps limit depth document relation name kind w low space h =
    elim (Bool-cases (any_by (text_eq (entity_rid name)) w.emitted)) [
      | inl old ↦ rw old h
      | inr fresh ↦ rw fresh (
          emit-Keeps limit depth 1 document relation name kind w (omega arith) (omega arith) fresh
            space h)
    ]

pub visit_neighbour-Keeps :
    (limit depth d : ℕ) (relation : Text) (i : ℕ) (name kind : Text) (w : Walk)
    → d < depth
    → length w.emitted < limit
    → Keeps limit depth w
    → Keeps limit depth (visit_neighbour depth d relation i name kind w)
unfolding visit_neighbour is_emitted move_to
visit_neighbour-Keeps limit depth d relation i name kind w low space h =
    elim (Bool-cases (any_by (text_eq (entity_rid name)) w.emitted)) [
      | inl old ↦ rw old h
      | inr fresh ↦ rw fresh (
          emit-Keeps limit depth (suc d) w.current relation name kind w (omega arith) (omega arith)
            fresh space h)
    ]

pub mention_names-Keeps :
    (limit depth : ℕ) (document relation : Text) (kinds : List Text) (i : ℕ) (names : List Text)
    (w : Walk)
    → 0 < depth
    → Keeps limit depth w
    → Keeps limit depth (mention_names limit document relation kinds i names w).1
unfolding mention_names
mention_names-Keeps limit depth document relation kinds i [] w low h = h
mention_names-Keeps limit depth document relation kinds i (name ∷ names) w low h =
    elim (Bool-cases (leb limit (length w.emitted))) [
      | inl full ↦ rw full h
      | inr space ↦ rw space (
          mention_names-Keeps limit depth document relation kinds (suc i) names
            (visit_mention document relation name (text_or_empty (get_elem? kinds i)) w) low
            (visit_mention-Keeps limit depth document relation name
              (text_or_empty (get_elem? kinds i)) w low (omega tests) h))
    ]

pub unless_broken-Keeps :
    (limit depth : ℕ) (rest : Walk → Walk) (r : Bool × Walk)
    → Keeps limit depth r.1
    → ((w : Walk) → Keeps limit depth w → Keeps limit depth (rest w))
    → Keeps limit depth (unless_broken rest r)
unfolding unless_broken
unless_broken-Keeps limit depth rest (true, w) h k = h
unless_broken-Keeps limit depth rest (false, w) h k = k w h

pub mention_rows-Keeps :
    (limit depth : ℕ) (document relation : Text) (rows : List NextRow) (w : Walk)
    → 0 < depth
    → Keeps limit depth w
    → Keeps limit depth (mention_rows limit document relation rows w)
unfolding mention_rows
mention_rows-Keeps limit depth document relation [] w low h = h
mention_rows-Keeps limit depth document relation (row ∷ rows) w low h =
    unless_broken-Keeps limit depth (mention_rows limit document relation rows)
      (mention_names limit document relation (to_string_vec row.next_kind) 0
        (to_string_vec row.next_name) w)
      (mention_names-Keeps limit depth document relation (to_string_vec row.next_kind) 0
        (to_string_vec row.next_name) w low h)
      (λ w k. mention_rows-Keeps limit depth document relation rows w low k)

pub neighbour_names-Keeps :
    (limit depth d : ℕ) (relation : Text) (kinds : List Text) (i : ℕ) (names : List Text) (w : Walk)
    → d < depth
    → Keeps limit depth w
    → Keeps limit depth (neighbour_names limit depth d relation kinds i names w)
unfolding neighbour_names
neighbour_names-Keeps limit depth d relation kinds i [] w low h = h
neighbour_names-Keeps limit depth d relation kinds i (name ∷ names) w low h =
    elim (Bool-cases (leb limit (length w.emitted))) [
      | inl full ↦ rw full h
      | inr space ↦ rw space (
          neighbour_names-Keeps limit depth d relation kinds (suc i) names
            (visit_neighbour depth d relation i name (text_or_empty (get_elem? kinds i)) w) low
            (visit_neighbour-Keeps limit depth d relation i name (text_or_empty (get_elem? kinds i))
              w low (omega tests) h))
    ]

-- A node of depth 0 is not one that was reached.
pub start-Keeps :
    (limit depth : ℕ) (n : GraphNode) (w : Walk)
    → n.depth ≡ 0
    → Keeps limit depth w
    → Keeps limit depth (push_node n w)
unfolding push_node
start-Keeps limit depth n w e h = record {
  targets = h.targets;
  reached =
      ap (λ t. map (λ n. n.id) t)
        (filter_by-snoc_not (λ n. ltb 0 n.depth) w.nodes n (ap (λ d. ltb 0 d) e))
      ∙ h.reached;
  once = h.once;
  few = h.few;
  shallow = All-append (λ n. n.depth ≤ depth) w.nodes _ h.shallow (omega (arith, e), tt);
}

pub push_start-Keeps :
    (limit depth d : ℕ) (row : EntityRow) (w : Walk)
    → Keeps limit depth w
    → Keeps limit depth (push_start d row w)
unfolding push_start
push_start-Keeps limit depth zero row w h = start-Keeps limit depth _ w refl h
push_start-Keeps limit depth (suc d) row w h = h

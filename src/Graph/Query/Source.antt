-- ===== src/Graph/Query/Source.antt =====
-- Where the edges of one turn start, in `graph_query` (crates/skb-core/src/graph.rs).
use surreal_knowledge_base.Base.{
  ℕ, suc, ◌<◌, ◌≡◌, refl, ap, sym, ◌∙◌, Text, text_eq, List, [], ◌∷◌, ◌++◌, length, get_elem?,
  any_by, All-map, All, All-append, leb, ltb, true, false, Bool-cases, inl, inr, arith, tests,
  append_assoc, append-nil,
}
use surreal_knowledge_base.Search.Hits.{text_or_empty}
use surreal_knowledge_base.Graph.Ids.{entity_rid}
use surreal_knowledge_base.Graph.Rows.{GraphEdge, Walk}
use surreal_knowledge_base.Graph.Query.{move_to, emit, is_emitted, visit_neighbour, neighbour_names}

-- A name that is not the first leaves the traversal where it is.
current-visit_neighbour :
    (depth d : ℕ) (relation : Text) (i : ℕ) (name kind : Text) (w : Walk)
    → (visit_neighbour depth d relation (suc i) name kind w).current ≡ w.current
unfolding visit_neighbour is_emitted move_to emit
current-visit_neighbour depth d relation i name kind w =
    elim (Bool-cases (any_by (text_eq (entity_rid name)) w.emitted)) [
      | inl old ↦ rw old
      | inr fresh ↦ rw fresh (ground arith)
    ]

edges-visit_neighbour :
    (depth d : ℕ) (relation : Text) (i : ℕ) (name kind : Text) (w : Walk)
    → (edges : List GraphEdge) × ((visit_neighbour depth d relation i name kind w).edges
        ≡ w.edges ++ edges)
      × All (λ e. e.from ≡ w.current) edges
unfolding visit_neighbour is_emitted move_to emit
edges-visit_neighbour depth d relation i name kind w =
    elim (Bool-cases (any_by (text_eq (entity_rid name)) w.emitted)) [
      | inl old ↦ rw old ([], sym (append-nil w.edges), tt)
      | inr fresh ↦ rw fresh (
        record { from = w.current; to = entity_rid name; relation = relation } ∷ [],
        refl,
        (refl, tt),
      )
    ]

-- After the first name every edge starts where the traversal then is.
later_names :
    (limit depth d : ℕ) (relation : Text) (kinds : List Text) (i : ℕ) (names : List Text) (w : Walk)
    → (later : List GraphEdge) × ((neighbour_names limit depth d relation kinds
          (suc i)
          names
          w).edges
        ≡ w.edges ++ later)
      × All (λ e. e.from ≡ w.current) later
unfolding neighbour_names
later_names limit depth d relation kinds i [] w = ([], sym (append-nil w.edges), tt)
later_names limit depth d relation kinds i (name ∷ names) w =
    elim (Bool-cases (leb limit (length w.emitted))) [
      | inl full ↦ rw full ([], sym (append-nil w.edges), tt)
      | inr space ↦
          let kind = text_or_empty (get_elem? kinds (suc i)) in
          let v = visit_neighbour depth d relation (suc i) name kind w in
          let (now, made, here) = edges-visit_neighbour depth d relation (suc i) name kind w in
          let (later, more, there) = later_names limit depth d relation kinds (suc i) names v in
          rw space (
            now ++ later,
            more ∙ ap (λ t. t ++ later) made ∙ append_assoc w.edges now later,
            All-append (λ e. e.from ≡ w.current) now later here
                (All-map (λ e k. k ∙ current-visit_neighbour depth d relation i name kind w) later
                  there),
          )
    ]

first_edges :
    (depth d : ℕ) (relation name kind : Text) (w : Walk)
    → any_by (text_eq (entity_rid name)) w.emitted ≡ false
    → (visit_neighbour depth d relation 0 name kind w).edges
      ≡ w.edges ++ record { from = w.current; to = entity_rid name; relation = relation } ∷ []
unfolding visit_neighbour is_emitted move_to emit
first_edges depth d relation name kind w fresh = rw fresh

first_current :
    (depth d : ℕ) (relation name kind : Text) (w : Walk)
    → suc d < depth
    → any_by (text_eq (entity_rid name)) w.emitted ≡ false
    → (visit_neighbour depth d relation 0 name kind w).current ≡ entity_rid name
unfolding visit_neighbour is_emitted move_to emit
first_current depth d relation name kind w deep fresh =
    let below : ltb (suc d) depth ≡ true = omega tests in rw (fresh, below)

-- The first neighbour, when it is emitted and is not on the last level, is where the edges to the
-- other neighbours of the same entity start: they do not start at the entity that was queried.
pub later_edges_from_first :
    (limit depth d : ℕ) (relation : Text) (kinds : List Text) (name : Text) (names : List Text)
    (w : Walk)
    → suc d < depth
    → length w.emitted < limit
    → any_by (text_eq (entity_rid name)) w.emitted ≡ false
    → (later : List GraphEdge) × ((neighbour_names limit depth d relation kinds 0
          (name ∷ names)
          w).edges
        ≡ w.edges ++ record { from = w.current; to = entity_rid name; relation = relation } ∷ later)
      × All (λ e. e.from ≡ entity_rid name) later
unfolding neighbour_names
later_edges_from_first limit depth d relation kinds name names w deep space fresh =
    let kind = text_or_empty (get_elem? kinds 0) in
    let (later, more, there) =
      later_names limit depth d relation kinds 0 names
        (visit_neighbour depth d relation 0 name kind w) in
    let open_limit : leb limit (length w.emitted) ≡ false = ground arith in
    rw open_limit (
      later,
      more
          ∙ ap (λ t. t ++ later) (first_edges depth d relation name kind w fresh)
          ∙ append_assoc w.edges _ later,
      All-map (λ e k. k ∙ first_current depth d relation name kind w deep fresh) later there,
    )

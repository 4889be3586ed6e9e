-- ===== src/Graph/Query/Bounds.antt =====
-- What a traversal emits: `graph_query` of crates/skb-core/src/graph.rs.
use surreal_knowledge_base.Base.{
  ℕ, zero, suc, ◌+◌, ◌-◌, ◌≤◌, ◌<◌, ◌≡◌, refl, ap, sym, ◌∙◌, subst, Text, lit, starts_with, Option,
  List, [], ◌∷◌, map, length, length-map, Option-cases, All-map, filter_by, All, leb, ltb, ◌==◌,
  ◌||◌, if◌then◌else◌, Bool-cases, inl, inr, arith, tests,
}
use surreal_knowledge_base.Error.{SkbError, Outcome, ok, ◌>>=◌, >>=-eq-ok, ok-injective}
use surreal_knowledge_base.Search.Hits.{unwrap_or}
use surreal_knowledge_base.Graph.Requests.{
  GraphQueryRequest, validate_query, validate_query-eq-ok_iff, IsValidQuery,
}
use surreal_knowledge_base.Graph.Rows.{
  GraphEdge, GraphStore, GraphQueryResult, Walk, NextRow, EntityRow,
}
use surreal_knowledge_base.Graph.Query.{
  push_start, visit_row, after_answer, walk, ask_neighbours, ask_document, document_walk,
  start_walk, follow, traverse, graph_query,
}
use surreal_knowledge_base.Graph.Query.Emitted.{AreDifferent, Keeps}
use surreal_knowledge_base.Graph.Query.Loops.{
  mention_rows-Keeps, neighbour_names-Keeps, start-Keeps, push_start-Keeps,
}

visit_row-Keeps :
    (limit depth : ℕ) (relation : Option Text) (d : ℕ) (row : EntityRow) (w : Walk)
    → d < depth
    → Keeps limit depth w
    → Keeps limit depth (visit_row limit depth relation d row w)
unfolding visit_row
visit_row-Keeps limit depth relation d row w low h =
    neighbour_names-Keeps limit depth d _ _ 0 _ (push_start d row w) low
      (push_start-Keeps limit depth d row w h)

after_answer-Keeps :
    (limit depth : ℕ) (relation : Option Text) (d : ℕ) (next : Walk → Outcome SkbError Walk)
    (rows : List EntityRow) (w r : Walk)
    → d < depth
    → ((w : Walk) → suc d < depth → Keeps limit depth w → next w ≡ ok r → Keeps limit depth r)
    → Keeps limit depth w
    → after_answer limit depth relation d next rows w ≡ ok r
    → Keeps limit depth r
unfolding after_answer
after_answer-Keeps limit depth relation d next [] w r low k h e =
    subst (Keeps limit depth) (ok-injective e) h
after_answer-Keeps limit depth relation d next (row ∷ rows) w r low k h e =
    elim (Bool-cases (leb depth (suc d))) [
      | inl last ↦
          subst (Keeps limit depth)
            (ok-injective {E = SkbError} {a = visit_row limit depth relation d row w} {b = r}
              (ground arith))
            (visit_row-Keeps limit depth relation d row w low h)
      | inr more ↦
          k (visit_row limit depth relation d row w) (omega tests)
            (visit_row-Keeps limit depth relation d row w low h) (ground arith)
    ]

walk-Keeps :
    (store : GraphStore) (limit depth : ℕ) (relation : Option Text) (turns d : ℕ) (w r : Walk)
    → d + turns ≤ depth
    → Keeps limit depth w
    → walk store limit depth relation turns d w ≡ ok r
    → Keeps limit depth r
unfolding walk
walk-Keeps store limit depth relation zero d w r low h e =
    subst (Keeps limit depth) (ok-injective e) h
walk-Keeps store limit depth relation (suc turns) d w r low h e =
    let (rows, _, more) = >>=-eq-ok (ask_neighbours store relation w) _ e in
    after_answer-Keeps limit depth relation d (walk store limit depth relation turns (suc d)) rows w
      r (omega arith)
      (λ w more k e. walk-Keeps store limit depth relation turns (suc d) w r (omega arith) k e) h
      more

no_turns-Keeps :
    (store : GraphStore) (limit depth : ℕ) (relation : Option Text) (turns d : ℕ) (w r : Walk)
    → turns ≡ 0
    → Keeps limit depth w
    → walk store limit depth relation turns d w ≡ ok r
    → Keeps limit depth r
unfolding walk
no_turns-Keeps store limit depth relation zero d w r z h e =
    subst (Keeps limit depth) (ok-injective e) h
no_turns-Keeps store limit depth relation (suc turns) d w r z h e = absurd (omega (arith, z))

-- With no turns left, or when the walk starts deeper than it may go, nothing changes.
late-Keeps :
    (store : GraphStore) (limit depth : ℕ) (relation : Option Text) (w r : Walk)
    → Keeps limit depth w
    → walk store limit depth relation (depth - w.start_depth) w.start_depth w ≡ ok r
    → Keeps limit depth r
late-Keeps store limit depth relation w r h e = elim (Bool-cases (leb w.start_depth depth)) [
  | inl early ↦ walk-Keeps store limit depth relation _ w.start_depth w r (omega tests) h e
  | inr late ↦
      let none_left : depth - w.start_depth ≡ 0 = omega tests in
      no_turns-Keeps store limit depth relation _ w.start_depth w r none_left h e
]

follow-Keeps :
    (store : GraphStore) (limit depth : ℕ) (relation : Option Text) (w r : Walk)
    → Keeps limit depth w
    → follow store limit depth relation w ≡ ok r
    → Keeps limit depth r
unfolding follow
follow-Keeps store limit depth relation w r h e =
    elim (Bool-cases (w.start_depth == 0 || leb depth 1)) [
      | inl stop ↦
          subst (Keeps limit depth) (ok-injective {E = SkbError} {a = w} {b = r} (ground arith)) h
      | inr go ↦ late-Keeps store limit depth relation w r h (ground arith)
    ]

document_walk-Keeps :
    (limit depth : ℕ) (relation : Option Text) (w : Walk) (found : Text × List NextRow)
    → 0 < depth
    → Keeps limit depth w
    → Keeps limit depth (document_walk limit relation w found)
unfolding document_walk
document_walk-Keeps limit depth relation w (title, rows) low h =
    mention_rows-Keeps limit depth w.current _ rows _ low (start-Keeps limit depth _ w refl h)

start_walk-Keeps : (limit depth : ℕ) (from : Text) → Keeps limit depth (start_walk from)
unfolding start_walk
start_walk-Keeps limit depth from = record {
  targets = refl;
  reached = refl;
  once = tt;
  few = omega arith;
  shallow = tt;
}

traverse-Keeps :
    (store : GraphStore) (limit depth : ℕ) (req : GraphQueryRequest) (w r : Walk)
    → 0 < depth
    → Keeps limit depth w
    → traverse store limit depth req w ≡ ok r
    → Keeps limit depth r
unfolding traverse
traverse-Keeps store limit depth req w r low h e =
    elim (Bool-cases (starts_with (lit "document:") w.current)) [
      | inl document ↦
          let asked : (ask_document store req.from w >>= λ found.
          follow store limit depth req.relation (document_walk limit req.relation w found))
              ≡ ok r =
            ground arith in
          let (found, _, e) = >>=-eq-ok (ask_document store req.from w) _ asked in
          follow-Keeps store limit depth req.relation (document_walk limit req.relation w found) r
            (document_walk-Keeps limit depth req.relation w found low h) e
      | inr entity ↦
          walk-Keeps store limit depth req.relation depth 0 w r (omega arith) h (ground arith)
    ]

abbrev pub IsBounded : GraphQueryRequest → GraphQueryResult → Type 0
IsBounded req result =
    (length result.edges ≤ unwrap_or 50 req.limit)
    × AreDifferent (map (λ e. e.to) result.edges)
    × (map (λ n. n.id) (filter_by (λ n. ltb 0 n.depth) result.nodes) ≡ map (λ e. e.to) result.edges)
    × All (λ n. n.depth ≤ unwrap_or 1 req.depth) result.nodes

capped : (d : ℕ) → 0 < d → (0 < (if leb d 5 then d else 5)) × ((if leb d 5 then d else 5) ≤ d)
capped d h = ground arith

depth_of_valid :
    (req : GraphQueryRequest)
    → IsValidQuery req
    → (0 < (if leb (unwrap_or 1 req.depth) 5 then unwrap_or 1 req.depth else 5))
      × ((if leb (unwrap_or 1 req.depth) 5 then unwrap_or 1 req.depth else 5)
          ≤ unwrap_or 1 req.depth)
depth_of_valid req v = elim (Option-cases req.depth) [
  | inl e ↦ rw e (omega tests, omega tests)
  | inr (d, e) ↦ rw e (capped d ((rw e at v.depth).0))
]

few_edges :
    (edges : List GraphEdge) (emitted : List Text) (limit : ℕ)
    → map (λ e. e.to) edges ≡ emitted
    → length emitted ≤ limit
    → length edges ≤ limit
few_edges edges emitted limit h few =
    omega (arith, length-map (λ e. e.to) edges, ap (λ t. length t) h)

-- A graph query that succeeds was a valid one; its edges lead to different entities, no more of them
-- than its limit (50 if it has none); the nodes below the start are the targets of the edges, in
-- order; and no node is deeper than the depth asked for (1 if it has none).
pub graph_query-IsBounded :
    (store : GraphStore) (req : GraphQueryRequest) (result : GraphQueryResult)
    → graph_query store req ≡ ok result
    → IsValidQuery req × IsBounded req result
unfolding graph_query
graph_query-IsBounded store req result e =
    let (_, valid, e) = >>=-eq-ok (validate_query req) _ e in
    let v = (validate_query-eq-ok_iff req).0 valid in
    let (low, high) = depth_of_valid req v in
    let (w, walked, e) = >>=-eq-ok (traverse store _ _ req (start_walk req.from)) _ e in
    let h =
      traverse-Keeps store (unwrap_or 50 req.limit) _ req (start_walk req.from) w low
        (start_walk-Keeps (unwrap_or 50 req.limit) _ req.from) walked in
    (
      v,
      subst (IsBounded req) (ok-injective e) (
        few_edges w.edges w.emitted _ h.targets h.few,
        subst AreDifferent (sym h.targets) h.once,
        h.reached ∙ sym h.targets,
        All-map {Q = λ n. n.depth ≤ unwrap_or 1 req.depth} (λ n k. omega (arith, k, high)) w.nodes
            h.shallow,
      ),
    )

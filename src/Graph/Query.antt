-- ===== src/Graph/Query.antt =====
-- `graph_query` of crates/skb-core/src/graph.rs: the traversal from an entity or a document.
pub mod Emitted
pub mod Loops
pub mod Bounds
pub mod Source
use surreal_knowledge_base.Base.{
  ℕ, zero, suc, ◌+◌, ◌-◌, ◌≤◌, Text, lit, starts_with, contains, strip_prefix, drop_while, text_eq,
  Option, none, some, List, [], ◌∷◌, ◌++◌, length, get_elem?, any_by, leb, ltb, ◌==◌, Bool, true,
  false, not, ◌&&◌, ◌||◌, if◌then◌else◌,
}
use surreal_knowledge_base.Error.{
  ErrorCode, SkbError, skb_error, Outcome, ok, err, ◌>>=◌, ◌>>◌, map_err,
}
use surreal_knowledge_base.Search.Hits.{unwrap_or, text_or_empty}
use surreal_knowledge_base.Search.Filter.{Query, fetch, db_error}
use surreal_knowledge_base.Graph.Requests.{GraphQueryRequest, validate_query}
use surreal_knowledge_base.Graph.Ids.{
  RecordId, entity_rid, start_record_id, close_angle, open_angle,
}
use surreal_knowledge_base.Graph.Rows.{
  GraphNode, GraphEdge, to_string_vec, NextRow, EntityRow, GraphStore, GraphQueryResult, Walk,
}

unfoldable pub push_node : GraphNode → Walk → Walk
push_node n w = record {
  nodes = w.nodes ++ n ∷ [];
  edges = w.edges;
  emitted = w.emitted;
  current = w.current;
  start_depth = w.start_depth;
}

unfoldable pub move_to : Text → ℕ → Walk → Walk
move_to id start_depth w = record {
  nodes = w.nodes;
  edges = w.edges;
  emitted = w.emitted;
  current = id;
  start_depth = start_depth;
}

-- The node and the edge of a name that is emitted for the first time.
unfoldable pub emit : Text → Text → ℕ → Text → Text → Walk → Walk
emit from relation depth name kind w = record {
  nodes = w.nodes ++ record { id = entity_rid name; name = name; kind = kind; depth = depth } ∷ [];
  edges = w.edges ++ record { from = from; to = entity_rid name; relation = relation } ∷ [];
  emitted = w.emitted ++ entity_rid name ∷ [];
  current = w.current;
  start_depth = w.start_depth;
}

unfoldable pub is_emitted : Text → Walk → Bool
is_emitted id w = any_by (text_eq id) w.emitted

-- One name of a document's chunk; the first one that is emitted is where the traversal goes on.
unfoldable pub visit_mention : Text → Text → Text → Text → Walk → Walk
unfolding is_emitted move_to
visit_mention document relation name kind w =
    if is_emitted (entity_rid name) w
    then w
    else move_to (if w.start_depth == 0 then entity_rid name else w.current) 1
        (emit document relation 1 name kind w)

-- The names of one chunk, and whether the limit broke off the loop.
unfoldable pub mention_names : ℕ → Text → Text → List Text → ℕ → List Text → Walk → Bool × Walk
unfolding visit_mention
mention_names limit document relation kinds i [] w = (false, w)
mention_names limit document relation kinds i (name ∷ names) w =
    let rest = mention_names limit document relation kinds (suc i) names in
    if leb limit (length w.emitted)
    then (true, w)
    else rest (visit_mention document relation name (text_or_empty (get_elem? kinds i)) w)

unfoldable pub unless_broken : (Walk → Walk) → Bool × Walk → Walk
unless_broken rest (true, w) = w
unless_broken rest (false, w) = rest w

-- The loop `'chunks`.
unfoldable pub mention_rows : ℕ → Text → Text → List NextRow → Walk → Walk
unfolding mention_names unless_broken
mention_rows limit document relation [] w = w
mention_rows limit document relation (row ∷ rows) w =
    unless_broken (mention_rows limit document relation rows) (
      mention_names limit document relation (to_string_vec row.next_kind) 0
        (to_string_vec row.next_name) w)

-- One neighbour, number `i`, on the way from depth `d`.
unfoldable pub visit_neighbour : ℕ → ℕ → Text → ℕ → Text → Text → Walk → Walk
unfolding is_emitted move_to
visit_neighbour depth d relation i name kind w =
    if is_emitted (entity_rid name) w
    then w
    else move_to (if ltb (suc d) depth && i == 0 then entity_rid name else w.current) w.start_depth
        (emit w.current relation (suc d) name kind w)

unfoldable pub neighbour_names : ℕ → ℕ → ℕ → Text → List Text → ℕ → List Text → Walk → Walk
neighbour_names limit depth d relation kinds i [] w = w
neighbour_names limit depth d relation kinds i (name ∷ names) w =
    let rest = neighbour_names limit depth d relation kinds (suc i) names in
    if leb limit (length w.emitted)
    then w
    else rest (visit_neighbour depth d relation i name (text_or_empty (get_elem? kinds i)) w)

unfoldable pub push_start : ℕ → EntityRow → Walk → Walk
push_start zero row w =
    push_node
      (record {
        id = text_or_empty row.id;
        name = text_or_empty row.name;
        kind = text_or_empty row.kind;
        depth = 0;
      })
      w
push_start (suc d) row w = w

unfoldable pub visit_row : ℕ → ℕ → Option Text → ℕ → EntityRow → Walk → Walk
unfolding push_start
visit_row limit depth relation d row w =
    neighbour_names limit depth d (unwrap_or (lit "related") relation)
      (to_string_vec row.next.next_kind) 0 (to_string_vec row.next.next_name) (push_start d row w)

trim_end_angles : Text → Text
trim_end_angles [] = []
trim_end_angles (c ∷ s) = elim (trim_end_angles s) [
  | [] ↦ if c == close_angle then [] else c ∷ []
  | d ∷ t ↦ c ∷ d ∷ t
]

name_in_id : Text → Option Text → Text
unfolding trim_end_angles
name_in_id current none = current
name_in_id current (some name) = trim_end_angles (drop_while (λ c. c == open_angle) name)

-- What an answer of the store does to the traversal; `next` is the next turn of the loop.
unfoldable pub after_answer :
    ℕ
    → ℕ
    → Option Text
    → ℕ
    → (Walk → Outcome SkbError Walk)
    → List EntityRow
    → Walk
    → Outcome SkbError Walk
unfolding visit_row
after_answer limit depth relation d next [] w = ok w
after_answer limit depth relation d next (row ∷ _) w =
    let w = visit_row limit depth relation d row w in if leb depth (suc d) then ok w else next w

document_title : Text → List (Option Text) → Outcome SkbError Text
document_title from [] = err (skb_error ErrorCode.document_not_found from)
document_title from (title ∷ _) = ok (text_or_empty title)

unfoldable pub document_walk : ℕ → Option Text → Walk → Text × List NextRow → Walk
document_walk limit relation w (title, rows) =
    mention_rows limit w.current (unwrap_or (lit "mentions") relation) rows
      (push_node (record { id = w.current; name = title; kind = lit "document"; depth = 0 }) w)

unfoldable pub start_walk : Text → Walk
start_walk from = record {
  nodes = [];
  edges = [];
  emitted = [];
  current = if contains (lit ":") from then from else entity_rid from;
  start_depth = 0;
}

module _ (store : GraphStore) where
  -- The query of one turn.
  unfoldable pub ask_neighbours : Option Text → Walk → Outcome SkbError (List EntityRow)
  unfolding name_in_id
  ask_neighbours relation w = do
    id ← start_record_id w.current
    answer ← map_err (db_error (lit "graph query")) (
        store.neighbours id (name_in_id w.current (strip_prefix (lit "entity:") w.current))
          relation)
    map_err (db_error (lit "graph take")) answer

  -- `for d in start_depth..depth`, given the number of turns that are left.
  unfoldable pub walk : ℕ → ℕ → Option Text → ℕ → ℕ → Walk → Outcome SkbError Walk
  walk limit depth relation zero d w = ok w
  walk limit depth relation (suc turns) d w = ask_neighbours relation w >>= λ rows.
      after_answer limit depth relation d (walk limit depth relation turns (suc d)) rows w

  -- The title of the start document, and what its chunks mention.
  unfoldable pub ask_document : Text → Walk → Outcome SkbError (Text × List NextRow)
  unfolding document_title
  ask_document from w = do
    id ← start_record_id w.current
    titles ← fetch (lit "graph document") (store.document id)
    title ← document_title from titles
    rows ← fetch (lit "graph document chunks") (store.mentioned id)
    ok (title, rows)

  unfoldable pub follow : ℕ → ℕ → Option Text → Walk → Outcome SkbError Walk
  follow limit depth relation w =
      if w.start_depth == 0 || leb depth 1
      then ok w
      else walk limit depth relation (depth - w.start_depth) w.start_depth w

  unfoldable pub traverse : ℕ → ℕ → GraphQueryRequest → Walk → Outcome SkbError Walk
  unfolding follow
  traverse limit depth req w =
      if starts_with (lit "document:") w.current
      then (ask_document req.from w >>= λ found.
          follow limit depth req.relation (document_walk limit req.relation w found))
      else walk limit depth req.relation depth 0 w

  unfoldable pub graph_query : GraphQueryRequest → Outcome SkbError GraphQueryResult
  unfolding traverse
  graph_query req =
      validate_query req
      >> (traverse (unwrap_or 50 req.limit)
            (if leb (unwrap_or 1 req.depth) 5 then unwrap_or 1 req.depth else 5) req
            (start_walk req.from)
          >>= λ w. ok (record { nodes = w.nodes; edges = w.edges }))

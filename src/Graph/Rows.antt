-- ===== src/Graph/Rows.antt =====
-- What the queries of `graph_query` in crates/skb-core/src/graph.rs return, and what its loops build.
use surreal_knowledge_base.Base.{ℕ, Text, Option, none, some, List, [], ◌∷◌}
use surreal_knowledge_base.Search.Filter.{Query}
use surreal_knowledge_base.Graph.Ids.{RecordId}

pub record GraphNode : Type 0 where
  pub id : Text
  pub name : Text
  pub kind : Text
  pub depth : ℕ

pub record GraphEdge : Type 0 where
  pub from : Text
  pub to : Text
  pub relation : Text

-- A JSON value as far as `to_string_vec` looks: an array gives what `as_str` returns for each item.
pub data Value : Type 0 where
  string : Text → Value
  array : List (Option Text) → Value
  other : Value

strings : List (Option Text) → List Text
strings [] = []
strings (none ∷ xs) = strings xs
strings (some s ∷ xs) = s ∷ strings xs

unfoldable pub to_string_vec : Value → List Text
unfolding strings
to_string_vec (string s) = s ∷ []
to_string_vec (array xs) = strings xs
to_string_vec other = []

pub record NextRow : Type 0 where
  pub next_name : Value
  pub next_kind : Value

pub record EntityRow : Type 0 where
  pub id : Option Text
  pub name : Option Text
  pub kind : Option Text
  pub next : NextRow

-- The three queries of the traversal.
pub record GraphStore : Type 0 where
  -- The names of the documents with an id.
  pub document : RecordId → Query (List (Option Text))
  -- What the chunks of a document mention.
  pub mentioned : RecordId → Query (List NextRow)
  -- An entity by its id or its name, with its neighbours along a relation.
  pub neighbours : RecordId → Text → Option Text → Query (List EntityRow)

pub record GraphQueryResult : Type 0 where
  pub nodes : List GraphNode
  pub edges : List GraphEdge

-- The local variables of the traversal that its loops change.
pub record Walk : Type 0 where
  pub nodes : List GraphNode
  pub edges : List GraphEdge
  pub emitted : List Text
  pub current : Text
  pub start_depth : ℕ

-- ===== src/Graph/Expand/Buckets.antt =====
-- The rows that `expand_search_hits` of crates/skb-core/src/graph.rs reads, and its sets and maps of chunks
-- and names. A hash map is an association list, a hash set a list.
use surreal_knowledge_base.Base.{
  ℕ, ◌==◌, Text, lit, show, text_eq, any_by, Bool, ◌&&◌, Option, List, [], ◌∷◌, ◌++◌, if◌then◌else◌,
}
use surreal_knowledge_base.Base.Map.{get, put}
use surreal_knowledge_base.Search.Filter.{Query}
use surreal_knowledge_base.Search.Hits.{unwrap_or, text_or_empty}
use surreal_knowledge_base.Graph.Ids.{RecordId}
use surreal_knowledge_base.Graph.Rows.{Value, to_string_vec}
use surreal_knowledge_base.Ingest.Store.{document_record}

-- A chunk with what it mentions.
pub record MentionRow : Type 0 where
  pub document : Option Text
  pub idx : Option ℕ
  pub e : Value

-- A chunk that mentions one of some entities.
pub record FoundRow : Type 0 where
  pub content : Option Text
  pub idx : Option ℕ
  pub document : Option Text
  pub title : Option Text
  pub source : Option Text
  pub e : Value

pub record ExpandStore : Type 0 where
  pub mentions : List RecordId → Query (List MentionRow)
  -- The neighbours of the entities with some names.
  pub related : List Text → Query (List Value)
  pub found : List Text → Query (List FoundRow)

abbrev pub ChunkKey : Type 0
ChunkKey = Text × ℕ

abbrev pub expand_origin_limit : ℕ
expand_origin_limit = 3

abbrev pub frontier_max : ℕ
frontier_max = 100

unfoldable pub same_chunk : ChunkKey → ChunkKey → Bool
same_chunk (d, i) (e, j) = text_eq d e && i == j

unfoldable pub has_chunk : ChunkKey → List ChunkKey → Bool
unfolding same_chunk
has_chunk k ks = any_by (same_chunk k) ks

-- `by_hit.entry(key).or_default().push(name)`
unfoldable pub push_name :
    ChunkKey → Text → List (ChunkKey × List Text) → List (ChunkKey × List Text)
unfolding same_chunk
push_name k name [] = (k, name ∷ []) ∷ []
push_name k name ((j, names) ∷ m) =
    let rest = push_name k name m in
    if same_chunk k j then (j, names ++ (name ∷ [])) ∷ m else (j, names) ∷ rest

unfoldable pub push_names :
    ChunkKey → List Text → List (ChunkKey × List Text) → List (ChunkKey × List Text)
unfolding push_name
push_names k [] m = m
push_names k (name ∷ names) m = push_names k names (push_name k name m)

-- `by_hit.remove(key).unwrap_or_default()`: the names, and the map without the key.
unfoldable pub remove_names :
    ChunkKey → List (ChunkKey × List Text) → List Text × List (ChunkKey × List Text)
unfolding same_chunk
remove_names k [] = ([], [])
remove_names k ((j, names) ∷ m) =
    let (found, rest) = remove_names k m in
    if same_chunk k j then (names, m) else (found, (j, names) ∷ rest)

-- The entities of the hits' chunks.
unfoldable pub bucket_rows :
    List ChunkKey → List MentionRow → List (ChunkKey × List Text) → List (ChunkKey × List Text)
unfolding has_chunk push_names to_string_vec
bucket_rows wanted [] m = m
bucket_rows wanted (row ∷ rows) m =
    let key : ChunkKey = (text_or_empty row.document, unwrap_or 0 row.idx) in
    bucket_rows wanted rows
      (if has_chunk key wanted then push_names key (to_string_vec row.e) m else m)

unfoldable pub unique_documents : List Text → List RecordId
unique_documents [] = []
unique_documents (d ∷ ds) =
    let rest = unique_documents ds in
    if any_by (text_eq d) ds then rest else document_record d ∷ rest

-- The key of `origin_entities`.
unfoldable pub origin_key : Text → ℕ → Text
origin_key document idx = document ++ lit "/" ++ show idx

unfoldable pub push_origin : Text → Text → List (Text × List Text) → List (Text × List Text)
unfolding get put
push_origin key name m = put key (unwrap_or [] (get key m) ++ (name ∷ [])) m

unfoldable pub push_origins : Text → List Text → List (Text × List Text) → List (Text × List Text)
unfolding push_origin
push_origins key [] m = m
push_origins key (name ∷ names) m = push_origins key names (push_origin key name m)

-- The names that are not visited yet, and the visited ones with them.
unfoldable pub visit : List Text → List Text → List Text × List Text
visit [] visited = ([], visited)
visit (name ∷ names) visited =
    let (later, all) = visit names visited in
    let (new, all_new) = visit names (name ∷ visited) in
    if any_by (text_eq name) visited then (later, all) else (name ∷ new, all_new)

unfoldable pub all_names : List Value → List Text
unfolding to_string_vec
all_names [] = []
all_names (v ∷ vs) = to_string_vec v ++ all_names vs

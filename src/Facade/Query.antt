-- ===== src/Facade/Query.antt =====
-- `query_surql` and `extract_and_save_entities` of crates/skb-core/src/lib.rs.
use surreal_knowledge_base.Base.{
  ℕ, ◌+◌, Text, lit, show, trim, is_empty, Option, none, some, false, List, [], ◌∷◌, ◌++◌,
}
use surreal_knowledge_base.Error.{
  SkbError, Outcome, ok, err, panic, out_of_fuel, ◌>>=◌, ◌>>◌, map_err,
}
use surreal_knowledge_base.Config.{reject_if}
use surreal_knowledge_base.Search.Filter.{Query, db_error}
use surreal_knowledge_base.Graph.Requests.{EntityInfo}
use surreal_knowledge_base.Graph.Ids.{RecordId}
use surreal_knowledge_base.Graph.Extract.{Patterns, extract_entities}
use surreal_knowledge_base.Graph.Index.{Run, upsert_entity}
use surreal_knowledge_base.Crud.Documents.{Documents, get_document}
use surreal_knowledge_base.Facade.Fingerprint.{Json, null}

json_or_null : Option Json → Json
json_or_null none = null
json_or_null (some v) = v

-- The results of the statements, from a number on; no value is a null.
unfoldable pub take_statements :
    ℕ → List (Outcome Text (Option Json)) → Outcome SkbError (List Json)
unfolding json_or_null
take_statements i [] = ok []
take_statements i (r ∷ rs) = do
  v ← map_err (db_error (lit "query take statement " ++ show i)) r
  vs ← take_statements (i + 1) rs
  ok (json_or_null v ∷ vs)

-- `query_surql`: a query that is sent and checked, with a result for each statement.
unfoldable pub query_surql :
    (Text → Query (List (Outcome Text (Option Json)))) → Text → Outcome SkbError (List Json)
unfolding take_statements
query_surql query surql = do
  reject_if (is_empty (trim surql)) (lit "query must not be empty")
  r ← map_err (db_error (lit "query")) (query surql)
  results ← map_err (db_error (lit "query check")) r
  take_statements 0 results

-- The state after a write whose error is ignored.
unfoldable pub ignoring : {S : Type 0} → S → Outcome SkbError S → Outcome SkbError S
ignoring s (ok t) = ok t
ignoring s (err _) = ok s
ignoring s panic = panic
ignoring s out_of_fuel = out_of_fuel

module _ {F S : Type 0} (run : Run F S) (parse : Text → Outcome Text RecordId) where
  unfoldable pub save_entities : List EntityInfo → S → Outcome SkbError S
  unfolding ignoring upsert_entity
  save_entities [] s = ok s
  save_entities (e ∷ es) s = ignoring s (upsert_entity run parse e s) >>= λ s. save_entities es s

  -- `extract_and_save_entities`
  unfoldable pub extract_and_save_entities :
      Documents S → Patterns → Text → S → Outcome SkbError (List EntityInfo × S)
  unfolding save_entities get_document extract_entities
  extract_and_save_entities db p doc_id s = do
    doc ← get_document db (record { id = doc_id; include_chunks = some false }) s
    let entities = extract_entities p doc.content
    s ← save_entities entities s
    ok (entities, s)

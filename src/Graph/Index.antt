-- ===== src/Graph/Index.antt =====
-- Writing entities and links: `upsert_entity`, `link`, `link_chunk_to_entity` and the two ways to index
-- a chunk's entities, in crates/skb-core/src/graph.rs. `parse` is `RecordId::parse_simple` of the
-- database's client.
pub mod Agreement
pub mod Keeps
use surreal_knowledge_base.Base.{
  ℕ, suc, ◌+◌, ◌≡◌, refl, ap, sym, ◌∙◌, Text, lit, Option, List, [], ◌∷◌, ◌++◌, map, length, All,
  arith, Bool,
}
use surreal_knowledge_base.Base.Float.{Float}
use surreal_knowledge_base.Error.{
  ErrorCode, SkbError, skb_error, Outcome, ok, err, panic, out_of_fuel, ◌>>=◌, ◌>>◌, map_err,
  >>=-eq-ok, ok-injective,
}
use surreal_knowledge_base.Config.{invalid}
use surreal_knowledge_base.Search.Hits.{unwrap_or, text_or_empty}
use surreal_knowledge_base.Search.Filter.{db_error}
use surreal_knowledge_base.Graph.Requests.{EntityInfo, LinkInfo, validate_entity, validate_link}
use surreal_knowledge_base.Graph.Ids.{RecordId, entity_record_id}
use surreal_knowledge_base.Graph.Extract.{Patterns, extract_entities}

-- The statements, with what is bound to them.
pub data Statement (F : Type 0) : Type 0 where
  insert_entity : RecordId → Text → Text → Text → Statement F
  relate_mentions : RecordId → RecordId → Statement F
  relate_related_to : RecordId → RecordId → Text → F → Statement F

-- A statement can fail when it is sent, or be rejected, which only `check()` reports.
abbrev pub Run : Type 0 → Type 0 → Type 0
Run F S = Statement F → S → Outcome Text (Outcome Text S)

-- The state after a result that is not checked: a rejected statement changes nothing.
after : {S : Type 0} → S → Outcome Text S → S
after s (ok t) = t
after s (err _) = s
after s panic = s
after s out_of_fuel = s

module _ {F S : Type 0} (run : Run F S) (parse : Text → Outcome Text RecordId) where
  insert : EntityInfo → S → Outcome SkbError S
  insert e s = do
    id ← entity_record_id e.name
    r ←
        map_err (db_error (lit "upsert entity"))
          (run (insert_entity id e.name e.kind (text_or_empty e.description)) s)
    map_err (db_error (lit "upsert entity check")) r

  -- `upsert_entity`
  unfoldable pub upsert_entity : EntityInfo → S → Outcome SkbError S
  unfolding insert
  upsert_entity e s = validate_entity e >> insert e s

  -- `link`
  unfoldable pub link : Float F → (F → Bool) → LinkInfo F → S → Outcome SkbError S
  link f is_finite l s = do
    validate_link f is_finite l
    from ← entity_record_id l.from
    to ← entity_record_id l.to
    r ←
        map_err (db_error (lit "link"))
          (run (relate_related_to from to l.relation (unwrap_or (f.of_ℕ 1) l.weight)) s)
    map_err (db_error (lit "link check")) r

  mention : Text → Text → S → Outcome SkbError (Outcome Text S)
  mention chunk_id name s = do
    chunk ←
        map_err (λ m. skb_error ErrorCode.validation (lit "invalid chunk id: " ++ m))
          (parse chunk_id)
    entity ← entity_record_id name
    map_err (db_error (lit "link chunk")) (run (relate_mentions chunk entity) s)

  -- `link_chunk_to_entity`, which does not check the result of its statement.
  unfoldable pub link_chunk_to_entity : Text → Text → S → Outcome SkbError S
  unfolding mention after
  link_chunk_to_entity chunk_id name s = do r ← mention chunk_id name s; ok (after s r)

  index_each : Text → ℕ → List EntityInfo → S → Outcome SkbError (ℕ × S)
  index_each chunk_id linked [] s = ok (linked, s)
  index_each chunk_id linked (e ∷ es) s = upsert_entity e s >>= λ s.
      link_chunk_to_entity chunk_id e.name s >>= λ s. index_each chunk_id (linked + 1) es s

  -- `index_chunk_entities`
  unfoldable pub index_chunk_entities : Patterns → Text → Text → S → Outcome SkbError (ℕ × S)
  unfolding index_each
  index_chunk_entities p chunk_id content s = index_each chunk_id 0 (extract_entities p content) s

  -- One entity in the transaction: not validated, and both statements checked.
  index_in : Text → EntityInfo → S → Outcome SkbError S
  unfolding insert mention
  index_in chunk_id e s = do
    s ← insert e s
    r ← mention chunk_id e.name s
    map_err (db_error (lit "link chunk check")) r

  index_each_in : Text → List EntityInfo → S → Outcome SkbError S
  index_each_in chunk_id [] s = ok s
  index_each_in chunk_id (e ∷ es) s = index_in chunk_id e s >>= λ s. index_each_in chunk_id es s

  -- `index_chunk_entities_in_transaction`
  unfoldable pub index_chunk_entities_in_transaction :
      Patterns → Text → Text → S → Outcome SkbError (List Text × S)
  unfolding index_each_in index_in
  index_chunk_entities_in_transaction p chunk_id content s = do
    s ← index_each_in chunk_id (extract_entities p content) s
    ok (map (λ e. e.name) (extract_entities p content), s)

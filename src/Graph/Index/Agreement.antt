-- ===== src/Graph/Index/Agreement.antt =====
-- The two ways to index a chunk's entities (crates/skb-core/src/graph.rs) agree.
use surreal_knowledge_base.Base.{ℕ, ◌+◌, ◌≡◌, ap, Text, lit, List, [], ◌∷◌, map, length, All, arith}
use surreal_knowledge_base.Error.{
  Outcome, ok, err, panic, out_of_fuel, map_err, >>=-eq-ok, ok-injective,
}
use surreal_knowledge_base.Search.Filter.{db_error}
use surreal_knowledge_base.Graph.Requests.{EntityInfo, validate_entity}
use surreal_knowledge_base.Graph.Ids.{RecordId, entity_record_id}
use surreal_knowledge_base.Graph.Extract.{Patterns, extract_entities}
use surreal_knowledge_base.Graph.Index.{
  Statement, relate_mentions, Run, after, upsert_entity, mention, link_chunk_to_entity, index_each,
  index_chunk_entities, index_in, index_each_in, index_chunk_entities_in_transaction,
}

module _ {F S : Type 0} (run : Run F S) (parse : Text → Outcome Text RecordId) where
  -- Every statement that can be sent is accepted.
  pub record IsAccepting : Type 0 where
    pub accepted :
        (w : Statement F) (s : S) (r : Outcome Text S) → run w s ≡ ok r → (t : S) × (r ≡ ok t)

  mention-accepted :
      IsAccepting
      → (chunk_id name : Text) (s : S) (r : Outcome Text S)
      → mention run parse chunk_id name s ≡ ok r
      → (t : S) × (r ≡ ok t)
  unfolding mention
  mention-accepted accepting chunk_id name s r h =
      let (chunk, _, h) = >>=-eq-ok (map_err _ (parse chunk_id)) _ h in
      let (entity, _, h) = >>=-eq-ok (entity_record_id name) _ h in
      accepting.accepted (relate_mentions chunk entity) s r
        (sent (run (relate_mentions chunk entity) s) r h)
    where
      sent :
          (m : Outcome Text (Outcome Text S)) (r : Outcome Text S)
          → map_err (db_error (lit "link chunk")) m ≡ ok r
          → m ≡ ok r
      sent (ok a) r h = ap ok (ok-injective h)
      sent (err e) r h = cc
      sent panic r h = cc
      sent out_of_fuel r h = cc

  -- One entity: what succeeds outside a transaction succeeds in it, with the same state.
  index_in_of_steps :
      IsAccepting
      → (chunk_id : Text) (e : EntityInfo) (s t u : S) → upsert_entity run parse e s ≡ ok t
      → link_chunk_to_entity run parse chunk_id e.name t ≡ ok u
      → (validate_entity e ≡ ok tt) × (index_in run parse chunk_id e s ≡ ok u)
  unfolding upsert_entity link_chunk_to_entity index_in after
  index_in_of_steps accepting chunk_id e s t u upserted linked =
      let (_, valid, inserted) = >>=-eq-ok (validate_entity e) _ upserted in
      let (r, sent, same) = >>=-eq-ok (mention run parse chunk_id e.name t) _ linked in
      let (v, taken) = mention-accepted accepting chunk_id e.name t r sent in
      let at_v : v ≡ u = ok-injective (rw taken at same) in
      (valid, rw (inserted, sent, taken, at_v))

  index_each_agrees :
      IsAccepting
      → (chunk_id : Text) (linked n : ℕ) (es : List EntityInfo) (s t : S)
      → index_each run parse chunk_id linked es s ≡ ok (n, t)
      → (n ≡ linked + length es)
        × All (λ e. validate_entity e ≡ ok tt) es
        × (index_each_in run parse chunk_id es s ≡ ok t)
  unfolding index_each index_each_in
  index_each_agrees accepting chunk_id linked n [] s t h =
      let same = ok-injective h in (omega (arith, ap (λ r. r.0) same), tt, ap (λ r. ok r.1) same)
  index_each_agrees accepting chunk_id linked n (e ∷ es) s t h =
      let (u, upserted, h) = >>=-eq-ok (upsert_entity run parse e s) _ h in
      let (v, made, h) = >>=-eq-ok (link_chunk_to_entity run parse chunk_id e.name u) _ h in
      let (count, valid, rest) = index_each_agrees accepting chunk_id (linked + 1) n es v t h in
      let (first_valid, first) = index_in_of_steps accepting chunk_id e s u v upserted made in
      (omega (arith, count), (first_valid, valid), rw (first, rest))

-- If no statement is rejected, indexing a chunk's entities one by one, when it succeeds, returns their
-- number; every one of them is a valid entity; and the transaction succeeds as well, with the same
-- state and the entities' names.
pub index_chunk_entities_agrees :
    {F S : Type 0} (run : Run F S) (parse : Text → Outcome Text RecordId) (p : Patterns)
    (chunk_id content : Text) (n : ℕ) (s t : S)
    → IsAccepting run parse
    → index_chunk_entities run parse p chunk_id content s ≡ ok (n, t)
    → (n ≡ length (extract_entities p content))
      × All (λ e. validate_entity e ≡ ok tt) (extract_entities p content)
      × (index_chunk_entities_in_transaction run parse p chunk_id content s
          ≡ ok (map (λ e. e.name) (extract_entities p content), t))
unfolding index_chunk_entities index_chunk_entities_in_transaction
index_chunk_entities_agrees run parse p chunk_id content n s t accepting h =
    let (count, valid, rest) =
      index_each_agrees run parse accepting chunk_id 0 n (extract_entities p content) s t h in
    (omega (arith, count), valid, rw rest)

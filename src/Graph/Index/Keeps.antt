-- ===== src/Graph/Index/Keeps.antt =====
-- What the entity writes in a transaction (crates/skb-core/src/graph.rs) keep if each statement does.
use surreal_knowledge_base.Base.{◌≡◌, subst, ap, Text, List, [], ◌∷◌}
use surreal_knowledge_base.Error.{
  Outcome, ok, map_err, map_err-eq-ok, checked-eq-ok, >>=-eq-ok, ok-injective,
}
use surreal_knowledge_base.Search.Hits.{text_or_empty}
use surreal_knowledge_base.Graph.Requests.{EntityInfo}
use surreal_knowledge_base.Graph.Ids.{RecordId, entity_record_id}
use surreal_knowledge_base.Graph.Extract.{Patterns, extract_entities}
use surreal_knowledge_base.Graph.Index.{
  Statement, insert_entity, relate_mentions, Run, insert, mention, index_in, index_each_in,
  index_chunk_entities_in_transaction,
}

module _ {F S : Type 0} (P : S → Type 0) (run : Run F S)
    (parse : Text → Outcome Text RecordId) where
  -- Every statement that is accepted keeps the property.
  pub record IsKept : Type 0 where
    pub kept : (w : Statement F) (s t : S) → run w s ≡ ok (ok t) → P s → P t

  module _ (keeps : IsKept) where
    insert-kept : (e : EntityInfo) (s t : S) → insert run parse e s ≡ ok t → P s → P t
    unfolding insert
    insert-kept e s t h p =
        let (id, _, h) = >>=-eq-ok (entity_record_id e.name) _ h in
        let w = insert_entity id e.name e.kind (text_or_empty e.description) in
        keeps.kept w s t (checked-eq-ok _ _ (run w s) t h) p

    index_in-kept :
        (chunk_id : Text) (e : EntityInfo) (s t : S)
        → index_in run parse chunk_id e s ≡ ok t
        → P s
        → P t
    unfolding index_in mention
    index_in-kept chunk_id e s t h p =
        let (u, inserted, h) = >>=-eq-ok (insert run parse e s) _ h in
        let (r, sent, h) = >>=-eq-ok (mention run parse chunk_id e.name u) _ h in
        let (chunk, _, sent) = >>=-eq-ok (map_err _ (parse chunk_id)) _ sent in
        let (entity, _, sent) = >>=-eq-ok (entity_record_id e.name) _ sent in
        let w = relate_mentions chunk entity in
        let accepted : run w u ≡ ok r = map_err-eq-ok _ (run w u) r sent in
        let taken : r ≡ ok t = map_err-eq-ok _ r t h in
        keeps.kept w u t (subst (λ x. run w u ≡ ok x) taken accepted) (insert-kept e s u inserted p)

    index_each_in-kept :
        (chunk_id : Text) (es : List EntityInfo) (s t : S)
        → index_each_in run parse chunk_id es s ≡ ok t
        → P s
        → P t
    unfolding index_each_in
    index_each_in-kept chunk_id [] s t h p = subst P (ok-injective h) p
    index_each_in-kept chunk_id (e ∷ es) s t h p =
        let (u, first, h) = >>=-eq-ok (index_in run parse chunk_id e s) _ h in
        index_each_in-kept chunk_id es u t h (index_in-kept chunk_id e s u first p)

    pub index_chunk_entities_in_transaction-kept :
        (p : Patterns) (chunk_id content : Text) (s : S) (r : List Text × S)
        → index_chunk_entities_in_transaction run parse p chunk_id content s ≡ ok r
        → P s
        → P r.1
    unfolding index_chunk_entities_in_transaction
    index_chunk_entities_in_transaction-kept p chunk_id content s r h q =
        let (t, each, h) =
          >>=-eq-ok (index_each_in run parse chunk_id (extract_entities p content) s) _ h in
        subst P (ap (λ x. x.1) (ok-injective h))
          (index_each_in-kept chunk_id (extract_entities p content) s t each q)

-- ===== src/Reindex/Current.antt =====
-- What a reindex (crates/skb-core/src/reindex.rs) that succeeds leaves in the metadata.
use surreal_knowledge_base.Base.{
  ℕ, ◌≤◌, ◌≡◌, sym, ap, ◌∙◌, subst, inl, inr, Text, lit, show, text_eq, Bool, true, false,
  Bool-cases, length, Option, none, some, List, ◌∷◌, if◌then◌else◌,
}
use surreal_knowledge_base.Error.{SkbError, Outcome, ok, ok-injective}
use surreal_knowledge_base.Error.Action.{
  Action, ◌▸◌, ◌⨾◌, return, writing, onward-eq-ok, chain-eq-ok, written-eq-ok, reading-eq-ok,
}
use surreal_knowledge_base.Config.{Config}
use surreal_knowledge_base.Config.Parse.{parse_unsigned, u64_max, parse_unsigned-show}
use surreal_knowledge_base.Database.{set_meta, delete_meta}
use surreal_knowledge_base.Database.Meta.{IsMeta, delete_meta-value}
use surreal_knowledge_base.Reindex.{
  World, Tools, ReindexResult, on_store, report, rebuild_all, transition_dimension, redefine_index,
  update_metas, rebuild, run_marked, read_plan, run_plan, reindex,
}
use surreal_knowledge_base.Reindex.Document.{Statements, DocRow}
use surreal_knowledge_base.Reindex.Plan.{IsChanging}
use surreal_knowledge_base.Reindex.Stored.{IsStored, update_metas-IsStored}

module _ {F G S : Type 0} (value : Text → S → Option Text) (db : Statements F G S)
    (laws : IsMeta value db.meta) (tools : Tools F) (config : Config) where
  -- What an accepted write led to.
  stored-eq-ok :
      (write : S → Outcome SkbError S) (w v : World S)
      → on_store (writing write) w ≡ (ok tt, v)
      → write w.store ≡ ok v.store
  unfolding on_store
  stored-eq-ok write w v h =
      written-eq-ok w.store (write w.store) tt v.store (ap (λ p. (p.0, p.1.store)) h)

  finish : ReindexResult → Action (World S) ReindexResult
  finish result = on_store (writing (update_metas db tools config)) ⨾ return result

  finish-IsStored :
      (result r : ReindexResult) (w v : World S)
      → finish result w ≡ (ok r, v)
      → IsStored value db laws tools config v.store
  unfolding finish
  finish-IsStored result r w v h =
      let (u, first, rest) =
        chain-eq-ok (on_store (writing (update_metas db tools config))) (return result) w r v h in
      subst (λ z. IsStored value db laws tools config z.store) (ap (λ p. p.1) rest)
        (update_metas-IsStored value db laws tools config w.store u.store
          (stored-eq-ok (update_metas db tools config) w u first))

  rebuild-IsStored :
      (changed : Bool) (docs : List DocRow) (r : ReindexResult) (w v : World S)
      → rebuild db tools config changed docs w ≡ (ok r, v)
      → IsStored value db laws tools config v.store
  unfolding rebuild finish
  rebuild-IsStored false docs r w v h =
      let (result, u, _, rest) = onward-eq-ok finish (rebuild_all db tools config docs w) r v h in
      finish-IsStored result r u v rest
  rebuild-IsStored true docs r w v h =
      let redefined : ReindexResult → Action (World S) ReindexResult =
        λ result. on_store (writing (redefine_index db tools config)) ⨾ finish result in
      let rebuilt : Action (World S) ReindexResult = rebuild_all db tools config docs ▸ redefined in
      let set_model : Action (World S) (Unit {0}) =
        on_store (writing (set_meta db.meta (lit "embedding_model") config.embedding.model)) in
      let set_dimension : Action (World S) (Unit {0}) =
        on_store
          (writing (set_meta db.meta (lit "embedding_dimension") (show tools.model.dimension))) in
      let (a, _, h) =
        chain-eq-ok (on_store (writing (transition_dimension db tools config)))
          (set_dimension ⨾ (set_model ⨾ rebuilt)) w r v h in
      let (b, _, h) = chain-eq-ok set_dimension (set_model ⨾ rebuilt) a r v h in
      let (c, _, h) = chain-eq-ok set_model rebuilt b r v h in
      let (result, d, _, h) = onward-eq-ok redefined (rebuild_all db tools config docs c) r v h in
      let (e, _, h) =
        chain-eq-ok (on_store (writing (redefine_index db tools config))) (finish result) d r v h in
      finish-IsStored result r e v h

  -- The stored sizes are the model's, there is no marker, and the next run would not change the
  -- dimension.
  pub record IsCurrent (s : S) : Type 0 where
    pub stored : IsStored value db laws tools config s
    pub no_marker : value (lit "reindex_in_progress") s ≡ none
    pub same_dimension : IsChanging value db laws tools config s → ⊥

  unmarked-IsCurrent :
      (s : S)
      → tools.model.dimension ≤ u64_max
      → IsStored value db laws tools config s
      → value (lit "reindex_in_progress") s ≡ none
      → IsCurrent s
  unmarked-IsCurrent s fits stored no_marker = record {
    stored = stored;
    no_marker = no_marker;
    same_dimension = λ changing. elim changing [
      | inl (v, d, same, parsed, other) ↦ other (
          ok-injective (
            sym parsed
            ∙ ap parse_unsigned
                (some-injective v (show tools.model.dimension) (sym same ∙ stored.dimension))
            ∙ parse_unsigned-show tools.model.dimension fits))
      | inr marked ↦ none≢some (sym no_marker ∙ marked)
    ];
  }
    where
      some-injective : (a b : Text) → some a ≡ some b → a ≡ b
      some-injective a b e = cc

      none≢some : {t : Text} → none ≡ some t → ⊥
      none≢some e = cc

  report-store :
      (done total : ℕ) (w v : World S)
      → report db tools config done total w ≡ (ok tt, v)
      → w.store ≡ v.store
  unfolding report
  report-store done total w v h = elim (Bool-cases tools.has_progress) [
    | inl p ↦
        sym (ap (λ b. (if b then record w { reports = (done, total) ∷ w.reports } else w).store) p)
        ∙ ap (λ q. q.1.store) h
    | inr p ↦
        sym (ap (λ b. (if b then record w { reports = (done, total) ∷ w.reports } else w).store) p)
        ∙ ap (λ q. q.1.store) h
  ]

  unmark-IsCurrent :
      (docs : List DocRow) (result r : ReindexResult) (w v : World S)
      → tools.model.dimension ≤ u64_max
      → IsStored value db laws tools config w.store
      → (on_store (writing (delete_meta db.meta (lit "reindex_in_progress")))
            ⨾ (report db tools config (length docs) (length docs) ⨾ return result))
          w
        ≡ (ok r, v)
      → IsCurrent v.store
  unfolding text_eq lit
  unmark-IsCurrent docs result r w v fits stored h =
      let (a, deleted, h) =
        chain-eq-ok (on_store (writing (delete_meta db.meta (lit "reindex_in_progress"))))
          (report db tools config (length docs) (length docs) ⨾ return result) w r v h in
      let (b, reported, h) =
        chain-eq-ok (report db tools config (length docs) (length docs)) (return result) a r v h in
      let gone =
        delete_meta-value value db.meta laws _ w.store a.store
          (stored-eq-ok (delete_meta db.meta (lit "reindex_in_progress")) w a deleted) in
      subst IsCurrent
        (report-store (length docs) (length docs) a b reported ∙ ap (λ p. p.1.store) h)
        (unmarked-IsCurrent a.store fits
          (record {
            model = gone _ ∙ stored.model;
            dimension = gone _ ∙ stored.dimension;
            max_input = gone _ ∙ stored.max_input;
          })
          (gone _))

  -- A run that succeeds and is not dry, with a model whose dimension fits in 64 bits, leaves the
  -- model, the dimension and the input limit of this model in the metadata, no marker, and nothing
  -- that makes the next run change the dimension.
  pub reindex-IsCurrent :
      (before after : World S) (r : ReindexResult)
      → tools.model.dimension ≤ u64_max
      → reindex db tools config false before ≡ (ok r, after)
      → IsCurrent after.store
  unfolding reindex run_plan run_marked
  reindex-IsCurrent before after r fits h =
      let ((changed, docs), _, h) =
        reading-eq-ok (run_plan db tools config false) (read_plan db tools config before.store)
          before r after h in
      let unmark : ReindexResult → Action (World S) ReindexResult = λ result.
        on_store (writing (delete_meta db.meta (lit "reindex_in_progress")))
        ⨾ (report db tools config (length docs) (length docs) ⨾ return result) in
      let (a, _, h) =
        chain-eq-ok
          (on_store (
            writing (
              set_meta db.meta (lit "reindex_in_progress")
                (if changed then lit "dim" else lit "meta"))))
          (rebuild db tools config changed docs ▸ unmark) before r after h in
      let (result, b, rebuilt, h) =
        onward-eq-ok unmark (rebuild db tools config changed docs a) r after h in
      unmark-IsCurrent docs result r b after fits (rebuild-IsStored changed docs result a b rebuilt)
        h

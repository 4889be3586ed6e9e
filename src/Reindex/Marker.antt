-- ===== src/Reindex/Marker.antt =====
-- The marker of a reindex (crates/skb-core/src/reindex.rs): it stands in the metadata whenever the
-- rebuild has begun and is not complete.
use surreal_knowledge_base.Base.{
  ◌≡◌, ◌↔◌, false≢true, refl, ◌∙◌, ◌⊎◌, inl, inr, Text, lit, show, text_eq, Bool, true, false,
  Bool-cases, length, Option, none, some, List, if◌then◌else◌,
}
use surreal_knowledge_base.Error.{SkbError, Outcome, ok, err, panic, out_of_fuel}
use surreal_knowledge_base.Error.Action.{
  Action, ◌▸◌, ◌⨾◌, return, writing, onward, written, Keeps, bind-Keeps, chain-Keeps, return-Keeps,
}
use surreal_knowledge_base.Config.{Config}
use surreal_knowledge_base.Database.{set_meta, delete_meta}
use surreal_knowledge_base.Database.Meta.{IsMeta, set_meta-value, delete_meta-value}
use surreal_knowledge_base.Reindex.{
  World, Tools, ReindexResult, on_store, report, rebuild_all, transition_dimension, redefine_index,
  update_metas, rebuild, run_marked, read_plan, run_plan, reindex,
}
use surreal_knowledge_base.Reindex.Document.{Statements, DocRow}
use surreal_knowledge_base.Reindex.Frame.{IsFramed, set_other}
use surreal_knowledge_base.Reindex.Rows.{Marked, IsMarked, writing-Keeps, rebuild_all-Keeps}
use surreal_knowledge_base.Reindex.Plan.{IsChanging, read_plan-IsChanging}
use surreal_knowledge_base.Reindex.Metadata.{
  transition_dimension-marker, redefine_index-marker, update_metas-marker,
}

module _ {F G S : Type 0} (value : Text → S → Option Text) (db : Statements F G S)
    (laws : IsMeta value db.meta) (frame : IsFramed value db) (tools : Tools F)
    (config : Config) where
  abbrev MarkedWorld : Text → World S → Type 0
  MarkedWorld = Marked value db laws frame tools config

  -- The metadata at the end of a rebuild.
  finish : ReindexResult → Action (World S) ReindexResult
  finish result = on_store (writing (update_metas db tools config)) ⨾ return result

  finish-Keeps : (set : Text) (result : ReindexResult) → Keeps (MarkedWorld set) (finish result)
  unfolding finish
  finish-Keeps set result =
      chain-Keeps (MarkedWorld set) (on_store (writing (update_metas db tools config)))
        (return result)
        (writing-Keeps value db laws frame tools config set (update_metas db tools config)
          (update_metas-marker value db laws frame tools config))
        (return-Keeps (MarkedWorld set) result)

  set_other-Keeps :
      (set key val : Text)
      → text_eq key (lit "reindex_in_progress") ≡ false
      → Keeps (MarkedWorld set) (on_store (writing (set_meta db.meta key val)))
  set_other-Keeps set key val other =
      writing-Keeps value db laws frame tools config set (set_meta db.meta key val)
        (λ s t h. set_other value db laws frame key val s t other h)

  rebuild-Keeps :
      (set : Text) (dimension_changed : Bool) (docs : List DocRow)
      → Keeps (MarkedWorld set) (rebuild db tools config dimension_changed docs)
  unfolding rebuild finish text_eq lit
  rebuild-Keeps set false docs =
      bind-Keeps (MarkedWorld set) (rebuild_all db tools config docs) finish
        (rebuild_all-Keeps value db laws frame tools config set docs) (finish-Keeps set)
  rebuild-Keeps set true docs =
      let redefined : ReindexResult → Action (World S) ReindexResult =
        λ result. on_store (writing (redefine_index db tools config)) ⨾ finish result in
      let rebuilt : Action (World S) ReindexResult = rebuild_all db tools config docs ▸ redefined in
      let set_model : Action (World S) (Unit {0}) =
        on_store (writing (set_meta db.meta (lit "embedding_model") config.embedding.model)) in
      let set_dimension : Action (World S) (Unit {0}) =
        on_store
          (writing (set_meta db.meta (lit "embedding_dimension") (show tools.model.dimension))) in
      chain-Keeps (MarkedWorld set) (on_store (writing (transition_dimension db tools config)))
        (set_dimension ⨾ (set_model ⨾ rebuilt))
        (writing-Keeps value db laws frame tools config set (transition_dimension db tools config)
          (transition_dimension-marker value db laws frame tools config))
        (chain-Keeps (MarkedWorld set) set_dimension (set_model ⨾ rebuilt)
          (set_other-Keeps set _ _ refl)
          (chain-Keeps (MarkedWorld set) set_model rebuilt (set_other-Keeps set _ _ refl) (
            bind-Keeps (MarkedWorld set) (rebuild_all db tools config docs) redefined
              (rebuild_all-Keeps value db laws frame tools config set docs)
              (λ result.
                chain-Keeps (MarkedWorld set) (on_store (writing (redefine_index db tools config)))
                  (finish result)
                  (writing-Keeps value db laws frame tools config set
                    (redefine_index db tools config)
                    (redefine_index-marker value db laws frame tools config))
                  (finish-Keeps set result)))))

  -- The marker of a state, "dim" or "meta", tells whether the dimension was to change from the state
  -- before.
  abbrev pub IsTold : S → S → Type 0
  IsTold before after =
      (IsMarked value db laws frame tools config (lit "dim") after
        × IsChanging value db laws tools config before)
      ⊎ (IsMarked value db laws frame tools config (lit "meta") after
          × (IsChanging value db laws tools config before → ⊥))

  -- What a run that is not dry leaves: no marker if it succeeds; if it does not, the store as it was, or
  -- the marker.
  abbrev pub IsRecoverable : World S → Outcome SkbError ReindexResult × World S → Type 0
  IsRecoverable before (ok _, after) = value (lit "reindex_in_progress") after.store ≡ none
  IsRecoverable before (err _, after) =
      (after.store ≡ before.store) ⊎ IsTold before.store after.store
  IsRecoverable before (panic, after) =
      (after.store ≡ before.store) ⊎ IsTold before.store after.store
  IsRecoverable before (out_of_fuel, after) =
      (after.store ≡ before.store) ⊎ IsTold before.store after.store

  abbrev reported : List DocRow → ReindexResult → Action (World S) ReindexResult
  reported docs result = report db tools config (length docs) (length docs) ⨾ return result

  deleted-IsRecoverable :
      (before w : World S) (docs : List DocRow) (result : ReindexResult) (o : Outcome SkbError S)
      → delete_meta db.meta (lit "reindex_in_progress") w.store ≡ o
      → IsTold before.store w.store
      → IsRecoverable before (
          onward
            (λ _. reported docs result)
            ((written w.store o).0, record w { store = (written w.store o).1 }))
  unfolding report text_eq lit
  deleted-IsRecoverable before w docs result (ok u) e h = elim (Bool-cases tools.has_progress) [
    | inl p ↦ rw p (delete_meta-value value db.meta laws _ w.store u e _)
    | inr p ↦ rw p (delete_meta-value value db.meta laws _ w.store u e _)
  ]
  deleted-IsRecoverable before w docs result (err _) e h = inr h
  deleted-IsRecoverable before w docs result panic e h = inr h
  deleted-IsRecoverable before w docs result out_of_fuel e h = inr h

  abbrev unmark : List DocRow → ReindexResult → Action (World S) ReindexResult
  unmark docs result =
      on_store (writing (delete_meta db.meta (lit "reindex_in_progress"))) ⨾ reported docs result

  rebuilt-IsRecoverable :
      (before : World S) (docs : List DocRow) (p : Outcome SkbError ReindexResult × World S)
      → IsTold before.store p.1.store
      → IsRecoverable before (onward (unmark docs) p)
  unfolding on_store
  rebuilt-IsRecoverable before docs (ok result, w) h =
      deleted-IsRecoverable before w docs result _ refl h
  rebuilt-IsRecoverable before docs (err _, w) h = inr h
  rebuilt-IsRecoverable before docs (panic, w) h = inr h
  rebuilt-IsRecoverable before docs (out_of_fuel, w) h = inr h

  -- The marker that was set is there after the rebuild, and tells what was read.
  rebuilt-IsTold :
      (before : World S) (changed : Bool) (docs : List DocRow) (u : S)
      → (changed ≡ true) ↔ IsChanging value db laws tools config before.store
      → set_meta db.meta
          (lit "reindex_in_progress")
          (if changed then lit "dim" else lit "meta")
          before.store
        ≡ ok u
      → IsTold before.store
          (rebuild db tools config changed docs (record before { store = u })).1.store
  rebuilt-IsTold before changed docs u means e = by_plan changed means e
    where
      kept :
          (b : Bool) (val : Text)
          → set_meta db.meta (lit "reindex_in_progress") val before.store ≡ ok u
          → value
              (lit "reindex_in_progress")
              (rebuild db tools config b docs (record before { store = u })).1.store
            ≡ some val
      kept b val h =
          (rebuild-Keeps val b docs).kept (record before { store = u })
            (set_meta-value value db.meta laws _ val before.store u h _
              ∙ unfold text_eq lit in refl)

      by_plan :
          (b : Bool)
          → (b ≡ true) ↔ IsChanging value db laws tools config before.store
          → set_meta db.meta
              (lit "reindex_in_progress")
              (if b then lit "dim" else lit "meta")
              before.store
            ≡ ok u
          → IsTold before.store
              (rebuild db tools config b docs (record before { store = u })).1.store
      by_plan true means h = inl (kept true (lit "dim") h, means.0 refl)
      by_plan false means h = inr (kept false (lit "meta") h, λ c. false≢true (means.1 c))

  marked-IsRecoverable :
      (before : World S) (changed : Bool) (docs : List DocRow) (o : Outcome SkbError S)
      → (changed ≡ true) ↔ IsChanging value db laws tools config before.store
      → set_meta db.meta
          (lit "reindex_in_progress")
          (if changed then lit "dim" else lit "meta")
          before.store
        ≡ o
      → IsRecoverable before (
          onward
            (λ _. rebuild db tools config changed docs ▸ unmark docs)
            ((written before.store o).0, record before { store = (written before.store o).1 }))
  marked-IsRecoverable before changed docs (ok u) means e =
      rebuilt-IsRecoverable before docs
        (rebuild db tools config changed docs (record before { store = u }))
        (rebuilt-IsTold before changed docs u means e)
  marked-IsRecoverable before changed docs (err _) means e = inl refl
  marked-IsRecoverable before changed docs panic means e = inl refl
  marked-IsRecoverable before changed docs out_of_fuel means e = inl refl

  planned-IsRecoverable :
      (before : World S) (o : Outcome SkbError (Bool × List DocRow))
      → read_plan db tools config before.store ≡ o
      → IsRecoverable before (onward (run_plan db tools config false) (o, before))
  unfolding run_plan run_marked on_store
  planned-IsRecoverable before (ok (changed, docs)) read =
      marked-IsRecoverable before changed docs _
        (read_plan-IsChanging value db laws tools config before.store changed docs read) refl
  planned-IsRecoverable before (err _) read = inl refl
  planned-IsRecoverable before panic read = inl refl
  planned-IsRecoverable before out_of_fuel read = inl refl

  -- A reindex that is not dry and succeeds leaves no marker in the metadata. One that is not dry and
  -- ends at any other point, by an error of any statement or of the tokenizer or the embedder, has left
  -- the store as it was, or leaves the marker: "dim" if the stored dimension was another number than
  -- the model's or a change of the dimension had been interrupted, and "meta" if not.
  pub reindex-IsRecoverable :
      (before : World S) → IsRecoverable before (reindex db tools config false before)
  unfolding reindex
  reindex-IsRecoverable before =
      planned-IsRecoverable before (read_plan db tools config before.store) refl

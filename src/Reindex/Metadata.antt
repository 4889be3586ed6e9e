-- ===== src/Reindex/Metadata.antt =====
-- The transactions of a reindex on the schema and the metadata (crates/skb-core/src/reindex.rs) leave
-- the marker as it is.
use surreal_knowledge_base.Base.{◌≡◌, refl, ◌∙◌, subst, Text, lit, text_eq, false, Option}
use surreal_knowledge_base.Error.{
  SkbError, Outcome, ok, ◌>>=◌, map_err, >>=-eq-ok, ok-injective, checked-eq-ok,
}
use surreal_knowledge_base.Config.{Config}
use surreal_knowledge_base.Search.Filter.{db_error}
use surreal_knowledge_base.Database.{set_meta, statement}
use surreal_knowledge_base.Database.Meta.{IsMeta}
use surreal_knowledge_base.Facade.Fingerprint.{
  TokenizerMeta, tokenizer_source_for, tokenizer_fingerprint,
}
use surreal_knowledge_base.Reindex.{
  Tools, transition_dimension, redefine_index, update_metas, write_tokenizer,
}
use surreal_knowledge_base.Reindex.Document.{Statements}
use surreal_knowledge_base.Reindex.Frame.{IsFramed, marker, set_other}

module _ {F G S : Type 0} (value : Text → S → Option Text) (db : Statements F G S)
    (laws : IsMeta value db.meta) (frame : IsFramed value db) (tools : Tools F)
    (config : Config) where
  abbrev mark : S → Option Text
  mark = marker value db laws frame

  pub transition_dimension-marker :
      (s t : S) → transition_dimension db tools config s ≡ ok t → mark t ≡ mark s
  unfolding transition_dimension
  transition_dimension-marker s t h =
      let (_, _, h) = >>=-eq-ok (map_err (db_error (lit "reindex begin")) (db.begin 0 s)) _ h in
      let (u, wiped, h) = >>=-eq-ok (statement (lit "reindex wipe") (db.wipe s)) _ h in
      let (v, redefined, h) =
        >>=-eq-ok (statement (lit "reindex redefine") (db.redefine_field tools.model.dimension u)) _
          h in
      let (_, _, h) = >>=-eq-ok (map_err (db_error (lit "reindex commit")) (db.commit 0 v)) _ h in
      subst (λ x. mark x ≡ mark s) (ok-injective h)
        (frame.redefines tools.model.dimension u v
            (checked-eq-ok _ _ (db.redefine_field tools.model.dimension u) v redefined)
            (lit "reindex_in_progress")
          ∙ frame.wipes s u (checked-eq-ok _ _ (db.wipe s) u wiped) (lit "reindex_in_progress"))

  pub redefine_index-marker : (s t : S) → redefine_index db tools config s ≡ ok t → mark t ≡ mark s
  unfolding redefine_index
  redefine_index-marker s t h =
      let (_, _, h) = >>=-eq-ok (map_err (db_error (lit "reindex begin")) (db.begin 0 s)) _ h in
      let (u, indexed, h) =
        >>=-eq-ok (statement (lit "reindex index") (db.define_index tools.model.dimension s)) _ h in
      let (_, _, h) = >>=-eq-ok (map_err (db_error (lit "reindex commit")) (db.commit 0 u)) _ h in
      subst (λ x. mark x ≡ mark s) (ok-injective h)
        (frame.defines_index tools.model.dimension s u
          (checked-eq-ok _ _ (db.define_index tools.model.dimension s) u indexed)
          (lit "reindex_in_progress"))

  -- A write of another key that leads on.
  set_step :
      (key val : Text) (next : S → Outcome SkbError S) (s t : S)
      → text_eq key (lit "reindex_in_progress") ≡ false
      → (set_meta db.meta key val s >>= next) ≡ ok t
      → (u : S) × (mark u ≡ mark s) × (next u ≡ ok t)
  set_step key val next s t other h =
      let (u, set, h) = >>=-eq-ok (set_meta db.meta key val s) next h in
      (u, set_other value db laws frame key val s u other set, h)

  write_tokenizer-marker :
      (source : Text) (meta : TokenizerMeta) (s t : S)
      → write_tokenizer db tools config source meta s ≡ ok t
      → mark t ≡ mark s
  unfolding write_tokenizer text_eq lit
  write_tokenizer-marker source meta s t h =
      let (a, kept_a, h) = set_step _ _ _ s t refl h in
      let (b, kept_b, h) = set_step _ _ _ a t refl h in
      let (c, kept_c, h) = set_step _ _ _ b t refl h in
      let (d, kept_d, h) = set_step _ _ _ c t refl h in
      let (e, kept_e, h) = set_step _ _ _ d t refl h in
      set_other value db laws frame _ _ e t refl h ∙ kept_e ∙ kept_d ∙ kept_c ∙ kept_b ∙ kept_a

  pub update_metas-marker : (s t : S) → update_metas db tools config s ≡ ok t → mark t ≡ mark s
  unfolding update_metas text_eq lit
  update_metas-marker s t h =
      let (_, _, h) =
        >>=-eq-ok (map_err (db_error (lit "reindex meta begin")) (db.begin 0 s)) _ h in
      let (a, kept_a, h) = set_step _ _ _ s t refl h in
      let (b, kept_b, h) = set_step _ _ _ a t refl h in
      let (c, kept_c, h) = set_step _ _ _ b t refl h in
      let (d, kept_d, h) = set_step _ _ _ c t refl h in
      let (json, _, h) = >>=-eq-ok tools.config_json _ h in
      let (meta, _, h) =
        >>=-eq-ok (tokenizer_fingerprint tools.hashing (tokenizer_source_for config) json) _ h in
      let (e, written, h) =
        >>=-eq-ok (write_tokenizer db tools config (tokenizer_source_for config) meta d) _ h in
      let (_, _, h) =
        >>=-eq-ok (map_err (db_error (lit "reindex meta commit")) (db.commit 0 e)) _ h in
      subst (λ x. mark x ≡ mark s) (ok-injective h)
        (write_tokenizer-marker (tokenizer_source_for config) meta d e written
          ∙ kept_d
          ∙ kept_c
          ∙ kept_b
          ∙ kept_a)

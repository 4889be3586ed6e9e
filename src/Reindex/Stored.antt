-- ===== src/Reindex/Stored.antt =====
-- What the transaction at the end of a reindex (crates/skb-core/src/reindex.rs, `update_metas`) stores.
use surreal_knowledge_base.Base.{
  ◌≡◌, refl, ap, ◌∙◌, subst, Text, lit, show, text_eq, true, false, Option, some, if◌then◌else◌,
}
use surreal_knowledge_base.Error.{SkbError, Outcome, ok, ◌>>=◌, >>=-eq-ok, ok-injective, map_err}
use surreal_knowledge_base.Config.{Config}
use surreal_knowledge_base.Search.Filter.{db_error}
use surreal_knowledge_base.Database.{set_meta}
use surreal_knowledge_base.Database.Meta.{IsMeta, set_meta-value}
use surreal_knowledge_base.Facade.Fingerprint.{
  TokenizerMeta, tokenizer_source_for, tokenizer_fingerprint,
}
use surreal_knowledge_base.Reindex.{Tools, update_metas, write_tokenizer}
use surreal_knowledge_base.Reindex.Document.{Statements}

module _ {F G S : Type 0} (value : Text → S → Option Text) (db : Statements F G S)
    (laws : IsMeta value db.meta) (tools : Tools F) (config : Config) where
  -- The stored model and sizes are those of the model that has embedded.
  pub record IsStored (s : S) : Type 0 where
    pub model : value (lit "embedding_model") s ≡ some config.embedding.model
    pub dimension : value (lit "embedding_dimension") s ≡ some (show tools.model.dimension)
    pub max_input :
        value (lit "embedding_max_input_tokens") s ≡ some (show tools.model.max_input_tokens)

  IsOther : Text → Type 0
  IsOther key =
      (text_eq key (lit "embedding_model") ≡ false)
      × (text_eq key (lit "embedding_dimension") ≡ false)
      × (text_eq key (lit "embedding_max_input_tokens") ≡ false)

  set_other-value :
      (key val k : Text) (v : Option Text) (s t : S)
      → text_eq key k ≡ false
      → set_meta db.meta key val s ≡ ok t
      → value k s ≡ v
      → value k t ≡ v
  set_other-value key val k v s t other h same =
      set_meta-value value db.meta laws key val s t h k
      ∙ ap (λ b. if b then some val else value k s) other
      ∙ same

  -- A write of another key that leads on.
  set_other-IsStored :
      (key val : Text) (next : S → Outcome SkbError S) (s t : S)
      → IsOther key
      → IsStored s
      → (set_meta db.meta key val s >>= next) ≡ ok t
      → (u : S) × IsStored u × (next u ≡ ok t)
  unfolding IsOther
  set_other-IsStored key val next s t (a, b, c) stored h =
      let (u, set, h) = >>=-eq-ok (set_meta db.meta key val s) next h in
      (
        u,
        record {
          model = set_other-value key val _ _ s u a set stored.model;
          dimension = set_other-value key val _ _ s u b set stored.dimension;
          max_input = set_other-value key val _ _ s u c set stored.max_input;
        },
        h,
      )

  write_tokenizer-IsStored :
      (source : Text) (meta : TokenizerMeta) (s t : S)
      → IsStored s
      → write_tokenizer db tools config source meta s ≡ ok t
      → IsStored t
  unfolding write_tokenizer text_eq lit IsOther
  write_tokenizer-IsStored source meta s t stored h =
      let (a, stored, h) = set_other-IsStored _ _ _ s t (refl, refl, refl) stored h in
      let (b, stored, h) = set_other-IsStored _ _ _ a t (refl, refl, refl) stored h in
      let (c, stored, h) = set_other-IsStored _ _ _ b t (refl, refl, refl) stored h in
      let (d, stored, h) = set_other-IsStored _ _ _ c t (refl, refl, refl) stored h in
      let (e, stored, h) = set_other-IsStored _ _ _ d t (refl, refl, refl) stored h in
      record {
        model = set_other-value _ _ _ _ e t refl h stored.model;
        dimension = set_other-value _ _ _ _ e t refl h stored.dimension;
        max_input = set_other-value _ _ _ _ e t refl h stored.max_input;
      }

  set_value :
      (key val : Text) (s t : S)
      → text_eq key key ≡ true
      → set_meta db.meta key val s ≡ ok t
      → value key t ≡ some val
  set_value key val s t same h =
      set_meta-value value db.meta laws key val s t h key
      ∙ ap (λ b. if b then some val else value key s) same

  pub update_metas-IsStored : (s t : S) → update_metas db tools config s ≡ ok t → IsStored t
  unfolding update_metas text_eq lit IsOther
  update_metas-IsStored s t h =
      let (_, _, h) =
        >>=-eq-ok (map_err (db_error (lit "reindex meta begin")) (db.begin 0 s)) _ h in
      let (a, set_model, h) = >>=-eq-ok (set_meta db.meta (lit "embedding_model") _ s) _ h in
      let (b, set_dimension, h) =
        >>=-eq-ok (set_meta db.meta (lit "embedding_dimension") _ a) _ h in
      let (c, set_input, h) =
        >>=-eq-ok (set_meta db.meta (lit "embedding_max_input_tokens") _ b) _ h in
      let stored : IsStored c = record {
        model =
            set_other-value _ _ _ _ b c refl set_input
              (set_other-value _ _ _ _ a b refl set_dimension (set_value _ _ s a refl set_model));
        dimension =
            set_other-value _ _ _ _ b c refl set_input (set_value _ _ a b refl set_dimension);
        max_input = set_value _ _ b c refl set_input;
      } in
      let (d, stored, h) = set_other-IsStored _ _ _ c t (refl, refl, refl) stored h in
      let (json, _, h) = >>=-eq-ok tools.config_json _ h in
      let (meta, _, h) =
        >>=-eq-ok (tokenizer_fingerprint tools.hashing (tokenizer_source_for config) json) _ h in
      let (e, written, h) =
        >>=-eq-ok (write_tokenizer db tools config (tokenizer_source_for config) meta d) _ h in
      let (_, _, h) =
        >>=-eq-ok (map_err (db_error (lit "reindex meta commit")) (db.commit 0 e)) _ h in
      subst IsStored (ok-injective h) (write_tokenizer-IsStored _ meta d e stored written)

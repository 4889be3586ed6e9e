-- ===== src/Facade/Open/Accepted.antt =====
-- Which stores `open` of crates/skb-core/src/lib.rs accepts.
use surreal_knowledge_base.Base.{
  ◌≡◌, refl, sym, ap, subst, ◌∙◌, ◌⊎◌, inl, inr, Text, lit, show, text_eq, text_eq_iff, Bool, true,
  false, Bool-cases, Option, none, some, [], ◌∷◌, arith, if◌then◌else◌,
}
use surreal_knowledge_base.Error.{SkbError, Outcome, ok, err, ok-injective}
use surreal_knowledge_base.Error.Action.{
  ◌▸◌, ◌⨾◌, of_outcome, reading, written-eq-ok, reading-eq-ok, chain-eq-ok, return,
}
use surreal_knowledge_base.Config.{Config}
use surreal_knowledge_base.Database.{Statements, get_meta, set_meta, is_new_database, migrate}
use surreal_knowledge_base.Database.Meta.{IsMeta, get_meta-value, set_meta-value}
use surreal_knowledge_base.Facade.Open.{
  Host, Transactions, Parts, load_parts, check_marker, check_model, check_value, compare_stored,
  marker_step, model_step, dimension_step, input_step, prepare_step, tokenizer_step, prepare_store,
  open_parts, open_inner, open_store,
}

-- A value that is missing, or the one that is expected.
abbrev pub IsMissingOr : Text → Option Text → Type 0
IsMissingOr expected v = (v ≡ none) ⊎ (v ≡ some expected)

check_marker-IsMissingOr :
    (marker : Option Text) → check_marker marker ≡ ok tt → IsMissingOr [] marker
unfolding check_marker
check_marker-IsMissingOr none h = inl refl
check_marker-IsMissingOr (some []) h = inr refl
check_marker-IsMissingOr (some (c ∷ v)) h = cc

check_model-some :
    (config : Config) (stored : Option Text)
    → check_model config stored ≡ ok tt
    → stored ≡ some config.embedding.model
unfolding check_model
check_model-some config none h = cc
check_model-some config (some stored) h = ground (arith, text_eq_iff stored config.embedding.model)

module _ {S : Type 0} (value : Text → S → Option Text) (db : Statements S)
    (laws : IsMeta value db) where
  -- What has to be stored in a store that is opened.
  pub record IsMatching (s : S) (parts : Parts) : Type 0 where
    pub no_marker : IsMissingOr [] (value (lit "reindex_in_progress") s)
    pub model : value (lit "embedding_model") s ≡ some parts.config.embedding.model
    pub dimension : IsMissingOr (show parts.model.dimension) (value (lit "embedding_dimension") s)
    pub max_input :
        IsMissingOr
          (show parts.config.embedding.max_input_tokens)
          (value (lit "embedding_max_input_tokens") s)

  -- A check of a value that passes found it missing, or as expected; other values stay.
  check_value-IsMissingOr :
      (key label expected : Text) (stored : Option Text) (s t : S) (r : Unit {0})
      → check_value db key label expected stored s ≡ (ok r, t)
      → IsMissingOr expected stored × ((k : Text) → text_eq key k ≡ false → value k t ≡ value k s)
  unfolding check_value
  check_value-IsMissingOr key label expected none s t r h = (
    inl refl,
    (λ k other.
        set_meta-value value db laws key expected s t
          (written-eq-ok s (set_meta db key expected s) r t h) k
        ∙ ap (λ b. if b then some expected else value k s) other),
  )
  check_value-IsMissingOr key label expected (some stored) s t r h =
      elim (Bool-cases (text_eq stored expected)) [
        | inl e ↦ (
          inr (ap some ((text_eq_iff stored expected).0 e)),
          (λ k other. ap (value k) (sym (ap (λ p. p.1) (rw e at h)))),
        )
        | inr e ↦ absurd (never (rw e at h))
      ]
    where
      never : {e : SkbError} → ◌≡◌ {A = Outcome SkbError (Unit {0}) × S} (err e, s) (ok r, t) → ⊥
      never h = cc

  read_value :
      (key label expected : Text) (s t : S) (r : Unit {0})
      → (reading (get_meta db key) ▸ check_value db key label expected) s ≡ (ok r, t)
      → IsMissingOr expected (value key s)
        × ((k : Text) → text_eq key k ≡ false → value k t ≡ value k s)
  read_value key label expected s t r h =
      let (stored, read, h) =
        reading-eq-ok (check_value db key label expected) (get_meta db key s) s r t h in
      let (missing_or, kept) = check_value-IsMissingOr key label expected stored s t r h in
      (
        subst (IsMissingOr expected) (sym (get_meta-value value db laws key s stored read))
            missing_or,
        kept,
      )

  marker_step-IsMissingOr :
      (s t : S) (r : Unit {0})
      → marker_step db s ≡ (ok r, t)
      → IsMissingOr [] (value (lit "reindex_in_progress") s) × (s ≡ t)
  unfolding marker_step
  marker_step-IsMissingOr s t r h =
      let (marker, read, h) =
        reading-eq-ok (λ marker. of_outcome (check_marker marker))
          (get_meta db (lit "reindex_in_progress") s) s r t h in
      (
        subst (IsMissingOr []) (sym (get_meta-value value db laws _ s marker read))
            (check_marker-IsMissingOr marker (ap (λ p. p.0) h)),
        ap (λ p. p.1) h,
      )

  model_step-some :
      (config : Config) (s t : S) (r : Unit {0})
      → model_step db config s ≡ (ok r, t)
      → (value (lit "embedding_model") s ≡ some config.embedding.model) × (s ≡ t)
  unfolding model_step
  model_step-some config s t r h =
      let (stored, read, h) =
        reading-eq-ok (λ stored. of_outcome (check_model config stored))
          (get_meta db (lit "embedding_model") s) s r t h in
      (
        get_meta-value value db laws _ s stored read
            ∙ check_model-some config stored (ap (λ p. p.0) h),
        ap (λ p. p.1) h,
      )

  compare_stored-IsMatching :
      (parts : Parts) (s t : S) (r : Unit {0})
      → compare_stored db parts.config parts.model.dimension s ≡ (ok r, t)
      → IsMatching s parts
  unfolding compare_stored dimension_step input_step
  compare_stored-IsMatching parts s t r h =
      let config = parts.config in
      let dimension = dimension_step db parts.model.dimension in
      let (s1, first, h) =
        chain-eq-ok (marker_step db) (model_step db config ⨾ (dimension ⨾ input_step db config)) s r
          t h in
      let (s2, second, h) =
        chain-eq-ok (model_step db config) (dimension ⨾ input_step db config) s1 r t h in
      let (s3, third, fourth) = chain-eq-ok dimension (input_step db config) s2 r t h in
      let (no_marker, same1) = marker_step-IsMissingOr s s1 tt first in
      let (model, same2) = model_step-some config s1 s2 tt second in
      let (dim, kept) = read_value _ _ _ s2 s3 tt third in
      let (max_input, _) = read_value _ _ _ s3 t r fourth in
      let same : s ≡ s2 = same1 ∙ same2 in
      record {
        no_marker = no_marker;
        model = ap (value (lit "embedding_model")) same1 ∙ model;
        dimension =
            subst
              (λ u. IsMissingOr (show parts.model.dimension) (value (lit "embedding_dimension") u))
              (sym same) dim;
        max_input =
            subst (IsMissingOr (show config.embedding.max_input_tokens))
              (kept (lit "embedding_max_input_tokens") other_key
                ∙ ap (value (lit "embedding_max_input_tokens")) (sym same))
              max_input;
      }
    where
      other_key : text_eq (lit "embedding_dimension") (lit "embedding_max_input_tokens") ≡ false
      other_key = unfold text_eq lit in refl

  -- A store that `open` accepts is new, or it matches: no reindex is marked as in progress, the stored
  -- model is the configured one, and the stored dimension and input limit are those of the model and of
  -- the resolved configuration, or missing.
  pub open_store-IsMatching :
      (h : Host) (tx : Transactions S) (config : Config) (s t : S) (parts : Parts)
      → open_store db h tx config s ≡ (ok parts, t)
      → (is_new_database db s ≡ ok true) ⊎ IsMatching s parts
  unfolding open_store open_inner open_parts prepare_step prepare_store
  open_store-IsMatching h tx config s t parts e =
      let (loaded, _, e) =
        reading-eq-ok (open_parts db h tx false) (load_parts h config) s parts t e in
      let (u, prepared, e) =
        chain-eq-ok (prepare_step db tx false loaded)
          (tokenizer_step db h false loaded ⨾ return loaded) s parts t e in
      let (v, _, e) = chain-eq-ok (tokenizer_step db h false loaded) (return loaded) u parts t e in
      let same : loaded ≡ parts = ok-injective (ap (λ p. p.0) e) in
      let (is_new, read, prepared) =
        reading-eq-ok
          (λ is_new. prepare_store db tx loaded.config loaded.model.dimension is_new false)
          (is_new_database db s) s tt u prepared in
      by_new same is_new read prepared
    where
      by_new :
          {loaded : Parts} {u : S}
          → loaded ≡ parts
          → (is_new : Bool) → is_new_database db s ≡ ok is_new
          → prepare_store db tx loaded.config loaded.model.dimension is_new false s ≡ (ok tt, u)
          → (is_new_database db s ≡ ok true) ⊎ IsMatching s parts
      by_new same true read prepared = inl read
      by_new {loaded} {u} same false read prepared =
          let (w, compared, _) =
            chain-eq-ok (compare_stored db loaded.config loaded.model.dimension)
              (migrate db loaded.model.dimension) s tt u prepared in
          inr (subst (IsMatching s) same (compare_stored-IsMatching loaded s w tt compared))

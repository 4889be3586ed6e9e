-- ===== src/Reindex/Plan.antt =====
-- What a reindex (crates/skb-core/src/reindex.rs) reads of the metadata before it writes: whether the
-- dimension changes.
use surreal_knowledge_base.Base.{
  ℕ, ◌≡◌, ◌≢◌, ◌↔◌, refl, sym, ap, ◌∙◌, subst, ◌⊎◌, inl, inr, Text, lit, text_eq, text_eq_iff,
  text_eq_self, Bool, true, false, not, ◌==◌, ==_iff, ◌||◌, Bool-cases, Option, none, some, List,
  arith,
}
use surreal_knowledge_base.Error.{
  Outcome, ok, err, panic, out_of_fuel, >>=-eq-ok, ok-injective, map_err,
}
use surreal_knowledge_base.Config.{Config}
use surreal_knowledge_base.Config.Parse.{parse_unsigned}
use surreal_knowledge_base.Database.{get_meta}
use surreal_knowledge_base.Database.Meta.{IsMeta, get_meta-value}
use surreal_knowledge_base.Reindex.{Tools, is_changed, is_dim, read_plan}
use surreal_knowledge_base.Reindex.Document.{Statements, DocRow}

module _ {F G S : Type 0} (value : Text → S → Option Text) (db : Statements F G S)
    (laws : IsMeta value db.meta) (tools : Tools F) (config : Config) where
  -- The stored dimension is a number other than the model's, or a change of the dimension was
  -- interrupted.
  abbrev pub IsChanging : S → Type 0
  IsChanging s =
      ((v : Text) × (d : ℕ) × (value (lit "embedding_dimension") s ≡ some v)
        × (parse_unsigned v ≡ ok d)
        × (d ≢ tools.model.dimension))
      ⊎ (value (lit "reindex_in_progress") s ≡ some (lit "dim"))

  abbrev differs : {E : Type 0} → Outcome E ℕ → Bool
  differs o = elim o [ ok d ↦ not (d == tools.model.dimension) | _ ↦ false ]

  not_equal : (d e : ℕ) → not (d == e) ≡ true → d ≢ e
  not_equal d e h same = ground (arith, ==_iff d e)

  differs-true :
      {E : Type 0} (o : Outcome E ℕ)
      → differs o ≡ true
      → (d : ℕ) × (o ≡ ok d) × (d ≢ tools.model.dimension)
  differs-true (ok d) h = (d, refl, not_equal d tools.model.dimension h)
  differs-true (err _) h = cc
  differs-true panic h = cc
  differs-true out_of_fuel h = cc

  changed-IsChanging :
      (s : S) (stored : Option Text)
      → value (lit "embedding_dimension") s ≡ stored
      → is_changed db tools config stored ≡ true
      → IsChanging s
  unfolding is_changed
  changed-IsChanging s none read h = cc
  changed-IsChanging s (some v) read h =
      let (d, parsed, other) = differs-true (parse_unsigned v) h in inl (v, d, read, parsed, other)

  dim-IsChanging :
      (s : S) (marker : Option Text)
      → value (lit "reindex_in_progress") s ≡ marker
      → is_dim db tools config marker ≡ true
      → IsChanging s
  unfolding is_dim
  dim-IsChanging s none read h = cc
  dim-IsChanging s (some v) read h = inr (read ∙ ap some ((text_eq_iff v (lit "dim")).0 h))

  or_cases : (a b : Bool) → (a || b) ≡ true → (a ≡ true) ⊎ (b ≡ true)
  or_cases true b h = inl refl
  or_cases false b h = inr h

  or_right : (a b : Bool) → b ≡ true → (a || b) ≡ true
  or_right true b h = refl
  or_right false b h = h

  apart : (d e : ℕ) → d ≢ e → (d == e) ≡ false
  apart d e h = elim (Bool-cases (d == e)) [
    | inl same ↦ absurd (h ((==_iff d e).0 same))
    | inr other ↦ other
  ]

  changing-changed :
      (s : S) (stored marker : Option Text)
      → value (lit "embedding_dimension") s ≡ stored
      → value (lit "reindex_in_progress") s ≡ marker
      → IsChanging s
      → (is_changed db tools config stored || is_dim db tools config marker) ≡ true
  unfolding is_changed is_dim
  changing-changed s stored marker read marked (inl (v, d, same, parsed, other)) =
      subst (λ o. (is_changed db tools config o || is_dim db tools config marker) ≡ true)
        (sym (sym read ∙ same))
        (subst (λ o. (differs o || is_dim db tools config marker) ≡ true) (sym parsed)
          (subst (λ b. (not b || is_dim db tools config marker) ≡ true)
            (sym (apart d tools.model.dimension other)) refl))
  changing-changed s stored marker read marked (inr same) =
      subst (λ o. (is_changed db tools config stored || is_dim db tools config o) ≡ true)
        (sym (sym marked ∙ same))
        (or_right (is_changed db tools config stored) (text_eq (lit "dim") (lit "dim"))
          (text_eq_self (lit "dim")))

  -- The plan changes the dimension exactly if the metadata says so.
  pub read_plan-IsChanging :
      (s : S) (changed : Bool) (docs : List DocRow)
      → read_plan db tools config s ≡ ok (changed, docs)
      → (changed ≡ true) ↔ IsChanging s
  unfolding read_plan
  read_plan-IsChanging s changed docs h =
      let (stored, read, h) = >>=-eq-ok (get_meta db.meta (lit "embedding_dimension") s) _ h in
      let (marker, marked, h) = >>=-eq-ok (get_meta db.meta (lit "reindex_in_progress") s) _ h in
      let (r, _, h) = >>=-eq-ok (map_err _ (db.find_documents s)) _ h in
      let (rows, _, h) = >>=-eq-ok (map_err _ r) _ h in
      let same : (is_changed db tools config stored || is_dim db tools config marker) ≡ changed =
        ap (λ p. p.0) (ok-injective h) in
      let stored_is = get_meta-value value db.meta laws _ s stored read in
      let marker_is = get_meta-value value db.meta laws _ s marker marked in
      (
        λ e.
            elim (or_cases (is_changed db tools config stored) (is_dim db tools config marker)
              (same ∙ e)) [
                | inl c ↦ changed-IsChanging s stored stored_is c
                | inr c ↦ dim-IsChanging s marker marker_is c
              ],
        λ c. sym same ∙ changing-changed s stored marker stored_is marker_is c,
      )

-- ===== src/Search/Filter/Kept.antt =====
-- Which hits `apply_filter` of crates/skb-core/src/search.rs keeps, against the rows that the database
-- answers.
use mathlib.Core.List.{Memᴰ}
use mathlib.Core.Option.{some-injective}
use surreal_knowledge_base.Base.{
  ◌≡◌, ◌↔◌, ◌⊎◌, inl, inr, refl, sym, ap, subst, ◌∙◌, Text, text_eq, text_eq_iff, lit, Option, none,
  some, List, [], ◌∷◌, map, Bool, true, false, if◌then◌else◌, filter_by, any_by, all_by, All,
  All-map, arith, Bool-cases,
}
use surreal_knowledge_base.Base.Map.{get, get-put}
use surreal_knowledge_base.Base.Sort.Members.{sort_by-Memᴰ, dedup-Memᴰ}
use surreal_knowledge_base.Error.{
  SkbError, Outcome, ok, err, >>=-eq-ok, ok-injective, checked-eq-ok,
}
use surreal_knowledge_base.Search.Hits.{SearchHit}
use surreal_knowledge_base.Search.Filter.{
  DocRow, Query, fetch, filter_fields, validate_filter_fields, put_row, rows_by_id, equals,
  row_matches, keep_hits, hit_ids, keys, filter_found, apply_filter,
}

-- The fields that a filter may have.
abbrev pub AllowedField : Text → Type 0
AllowedField t =
    Memᴰ t (lit "title" ∷ lit "source" ∷ lit "source_type" ∷ lit "mime" ∷ lit "sha256" ∷ [])

has_id : Text → Option Text → Bool
has_id id none = false
has_id id (some t) = text_eq t id

abbrev or_else : Option DocRow → Option DocRow → Option DocRow
or_else (some r) o = some r
or_else none o = o

-- The last of the rows with an id.
unfoldable pub last_with : Text → List DocRow → Option DocRow
unfolding has_id
last_with id [] = none
last_with id (row ∷ rows) =
    or_else (last_with id rows) (if has_id id row.id then some row else none)

-- The row of the hit's document is among the rows, and has the value of every entry.
abbrev pub Satisfies : {F : Type 0} → List DocRow → List (Text × Text) → SearchHit F → Type 0
Satisfies rows filter hit =
    (row : DocRow) × (last_with hit.document_id rows ≡ some row)
    × All (λ e. row.field e.0 ≡ some e.1) filter

-- What the filter returns, against the rows that the database answers for ids which have those of all
-- hits' documents, and for the fields of the filter.
pub record IsFiltered {F : Type 0} (documents : List Text → List Text → Query (List DocRow))
    (filter : List (Text × Text)) (hits kept : List (SearchHit F)) : Type 0 where
  pub ids : List Text
  pub rows : List DocRow
  pub asked : All (λ h. Memᴰ h.document_id ids) hits
  pub answered : documents ids (map (λ e. e.0) filter) ≡ ok (ok rows)
  pub test : SearchHit F → Bool
  pub decides : (h : SearchHit F) → (test h ≡ true) ↔ Satisfies rows filter h
  pub exact : kept ≡ filter_by test hits

-- All the hits' documents are asked for.
hit_ids-All :
    {F : Type 0} (hits : List (SearchHit F)) → All (λ h. Memᴰ h.document_id (hit_ids hits)) hits
unfolding hit_ids
hit_ids-All hits =
    All-map (λ h m. dedup-Memᴰ _ (sort_by-Memᴰ (map (λ h. h.document_id) hits) m)) hits
      (listed hits)
  where
    listed :
        {F : Type 0} (hs : List (SearchHit F))
        → All (λ h. Memᴰ h.document_id (map (λ h. h.document_id) hs)) hs
    listed [] = tt
    listed (h ∷ hs) = (Memᴰ.head refl, All-map (λ _ m. Memᴰ.tail m) hs (listed hs))

-- The map of the rows has for an id the last row with it.
put_row-has_id :
    (id : Text) (row : DocRow) (m : List (Text × DocRow)) (o : Option Text)
    → get id (put_row row m o) ≡ or_else (if has_id id o then some row else none) (get id m)
unfolding put_row has_id
put_row-has_id id row m none = refl
put_row-has_id id row m (some t) = get-put t id row m ∙ chosen (text_eq t id)
  where
    chosen :
        (b : Bool)
        → (if b then some row else get id m) ≡ or_else (if b then some row else none) (get id m)
    chosen true = refl
    chosen false = refl

or_else_assoc : (a b c : Option DocRow) → or_else a (or_else b c) ≡ or_else (or_else a b) c
or_else_assoc none b c = refl
or_else_assoc (some r) b c = refl

rows_by_id-last_with :
    (id : Text) (rows : List DocRow) (m : List (Text × DocRow))
    → get id (rows_by_id rows m) ≡ or_else (last_with id rows) (get id m)
unfolding rows_by_id last_with
rows_by_id-last_with id [] m = refl
rows_by_id-last_with id (row ∷ rows) m =
    rows_by_id-last_with id rows (put_row row m row.id)
    ∙ ap (or_else (last_with id rows)) (put_row-has_id id row m row.id)
    ∙ or_else_assoc (last_with id rows) (if has_id id row.id then some row else none) (get id m)

rows_by_id-found :
    (id : Text) (rows : List DocRow) → get id (rows_by_id rows []) ≡ last_with id rows
unfolding get
rows_by_id-found id rows = rows_by_id-last_with id rows [] ∙ or_none (last_with id rows)
  where
    or_none : (o : Option DocRow) → or_else o none ≡ o
    or_none none = refl
    or_none (some r) = refl

equals_iff : (o : Option Text) (v : Text) → (equals o v ≡ true) ↔ (o ≡ some v)
unfolding equals
equals_iff none v = (λ h. cc, λ h. cc)
equals_iff (some w) v =
    (λ h. ap some ((text_eq_iff w v).0 h), λ h. (text_eq_iff w v).1 (some-injective w v h))

matches-All :
    (row : DocRow) (filter : List (Text × Text))
    → (all_by (λ (k, v). equals (row.field k) v) filter ≡ true)
      ↔ All (λ e. row.field e.0 ≡ some e.1) filter
matches-All row [] = (λ h. tt, λ h. refl)
matches-All row ((k, v) ∷ filter) = (
  λ h. ((equals_iff (row.field k) v).0 (ground arith), (matches-All row filter).0 (ground arith)),
  λ (p, h). rw ((equals_iff (row.field k) v).1 p) ((matches-All row filter).1 h),
)

found-Satisfies :
    {F : Type 0} (rows : List DocRow) (filter : List (Text × Text)) (hit : SearchHit F)
    (o : Option DocRow)
    → last_with hit.document_id rows ≡ o
    → (row_matches filter o ≡ true) ↔ Satisfies rows filter hit
unfolding row_matches
found-Satisfies rows filter hit none read = (λ h. cc, λ (row, found, _). cc)
found-Satisfies rows filter hit (some row) read = (
  λ h. (row, read, (matches-All row filter).0 h),
  λ (r, found, h). (matches-All row filter).1 (
      subst (λ x. All (λ e. x.field e.0 ≡ some e.1) filter)
        (some-injective r row (sym found ∙ read)) h),
)

test_hit : {F : Type 0} → List DocRow → List (Text × Text) → SearchHit F → Bool
test_hit rows filter hit = row_matches filter (get hit.document_id (rows_by_id rows []))

test_hit-Satisfies :
    {F : Type 0} (rows : List DocRow) (filter : List (Text × Text)) (hit : SearchHit F)
    → (test_hit rows filter hit ≡ true) ↔ Satisfies rows filter hit
unfolding test_hit
test_hit-Satisfies rows filter hit =
    subst (λ o. (row_matches filter o ≡ true) ↔ Satisfies rows filter hit)
      (sym (rows_by_id-found hit.document_id rows))
      (found-Satisfies rows filter hit (last_with hit.document_id rows) refl)

validate-AllowedField :
    (filter : List (Text × Text))
    → validate_filter_fields filter ≡ ok tt
    → All (λ e. AllowedField e.0) filter
unfolding validate_filter_fields filter_fields
validate-AllowedField [] h = tt
validate-AllowedField ((field, v) ∷ filter) h =
    elim (Bool-cases (any_by (λ allowed. text_eq allowed field) filter_fields)) [
      | inl e ↦ (listed filter_fields field e, validate-AllowedField filter (rw e at h))
      | inr e ↦ absurd (refused (rw e at h))
    ]
  where
    listed : (xs : List Text) (t : Text) → any_by (λ x. text_eq x t) xs ≡ true → Memᴰ t xs
    listed [] t h = cc
    listed (x ∷ xs) t h = elim (Bool-cases (text_eq x t)) [
      | inl e ↦ Memᴰ.head (sym ((text_eq_iff x t).0 e))
      | inr e ↦ Memᴰ.tail (listed xs t (rw e at h))
    ]

    refused : {e : SkbError} → ◌≡◌ {A = Outcome SkbError (Unit {0})} (err e) (ok tt) → ⊥
    refused h = cc

-- A filter with entries that succeeds has only the fields title, source, source_type, mime and sha256.
-- Without hits it keeps none. With hits, the database has answered rows for all the hits' documents and
-- for the fields of the filter, and the hits that are kept are, in their order, exactly those for whose
-- document there is a row, of several the last, that has the value of every entry.
pub apply_filter-IsFiltered :
    {F : Type 0} (documents : List Text → List Text → Query (List DocRow))
    (hits kept : List (SearchHit F)) (entry : Text × Text) (filter : List (Text × Text))
    → apply_filter documents hits (entry ∷ filter) ≡ ok kept
    → All (λ e. AllowedField e.0) (entry ∷ filter)
      × (((hits ≡ []) × (kept ≡ [])) ⊎ IsFiltered documents (entry ∷ filter) hits kept)
unfolding apply_filter filter_found keep_hits test_hit
apply_filter-IsFiltered documents [] kept entry filter h =
    let (_, valid, h) = >>=-eq-ok (validate_filter_fields (entry ∷ filter)) _ h in
    (validate-AllowedField (entry ∷ filter) valid, inl (refl, sym (ok-injective h)))
apply_filter-IsFiltered documents (hit ∷ hits) kept entry filter h =
    let asked = hit_ids (hit ∷ hits) in
    let (_, valid, h) = >>=-eq-ok (validate_filter_fields (entry ∷ filter)) _ h in
    let (rows, got, h) =
      >>=-eq-ok (fetch (lit "filter") (documents asked (keys (entry ∷ filter)))) _ h in
    (
      validate-AllowedField (entry ∷ filter) valid,
      inr (record {
        ids = asked;
        rows = rows;
        asked = hit_ids-All (hit ∷ hits);
        answered = checked-eq-ok _ _ (documents asked (keys (entry ∷ filter))) rows got;
        test = test_hit rows (entry ∷ filter);
        decides = test_hit-Satisfies rows (entry ∷ filter);
        exact = sym (ok-injective h);
      }),
    )

-- ===== src/Crud/Ids.antt =====
-- What `document_record_id` of crates/skb-core/src/crud.rs accepts.
use surreal_knowledge_base.Base.{
  ℕ, ◌≡◌, refl, sym, ap, ap₂, ◌∙◌, subst, inl, inr, Text, lit, text_eq, text_eq_iff, is_empty, trim,
  split_once, any_by, Bool, true, false, not, Bool-cases, ◌==◌, ==_iff, [], ◌∷◌, ◌++◌, Option, none,
  some, if◌then◌else◌,
}
use surreal_knowledge_base.Error.{SkbError, ok, >>=-eq-ok, ok-injective, ok_or}
use surreal_knowledge_base.Config.{reject_if}
use surreal_knowledge_base.Graph.Ids.{RecordId}
use surreal_knowledge_base.Ingest.Store.{document_record}
use surreal_knowledge_base.Crud.Requests.{validate_document_id, document_record_id, is_unsafe}

some-parts :
    {x y before after : Text}
    → ◌≡◌ {A = Option (Text × Text)} (some (x, y)) (some (before, after))
    → (x ≡ before) × (y ≡ after)
some-parts h = (cc, cc)

abbrev with_first : ℕ → Option (Text × Text) → Option (Text × Text)
with_first c o = elim o [ none ↦ none | some (x, y) ↦ some (c ∷ x, y) ]

later-parts :
    (c d : ℕ) (s before after : Text) (o : Option (Text × Text))
    → ((x : Text) → o ≡ some (x, after) → s ≡ x ++ (d ∷ after))
    → with_first c o ≡ some (before, after)
    → c ∷ s ≡ before ++ (d ∷ after)
later-parts c d s before after none rest h = cc
later-parts c d s before after (some (x, y)) rest h =
    let (front, same) = some-parts h in
    ap (λ t. c ∷ t) (rest x (ap (λ z. some (x, z)) same)) ∙ ap (λ t. t ++ (d ∷ after)) front

split_once-parts :
    (d : ℕ) (s before after : Text)
    → split_once d s ≡ some (before, after)
    → s ≡ before ++ (d ∷ after)
unfolding split_once
split_once-parts d [] before after h = cc
split_once-parts d (c ∷ s) before after h = elim (Bool-cases (c == d)) [
  | inl e ↦
      let (front, same) = some-parts (
        subst
          (λ b. (if b then some ([], s) else with_first c (split_once d s)) ≡ some (before, after))
          e h) in
      ap₂ (λ x t. x ∷ t) ((==_iff c d).0 e) same ∙ ap (λ t. t ++ (d ∷ after)) front
  | inr e ↦
      later-parts c d s before after (split_once d s) (λ x g. split_once-parts d s x after g)
        (subst
          (λ b. (if b then some ([], s) else with_first c (split_once d s)) ≡ some (before, after))
          e h)
]

not_rejected : (b : Bool) (m : Text) → reject_if (not b) m ≡ ok tt → b ≡ true
not_rejected true m h = refl
not_rejected false m h = cc

of_option : {A : Type 0} (e : SkbError) (o : Option A) (a : A) → ok_or e o ≡ ok a → o ≡ some a
of_option e none a h = cc
of_option e (some b) a h = ap some (ok-injective h)

validate_document_id-parts :
    (id table key : Text)
    → validate_document_id id ≡ ok (table, key)
    → (table ≡ lit "document") × (id ≡ table ++ (b':' ∷ key))
unfolding validate_document_id
validate_document_id-parts id table key h =
    let (_, _, h) = >>=-eq-ok (reject_if (is_empty (trim id)) _) _ h in
    let ((t, k), parts, h) = >>=-eq-ok (ok_or _ (split_once b':' id)) _ h in
    let (_, named, h) = >>=-eq-ok (reject_if (not (text_eq t (lit "document"))) _) _ h in
    let (_, _, h) = >>=-eq-ok (reject_if (is_empty k) _) _ h in
    let (_, _, h) = >>=-eq-ok (reject_if (any_by is_unsafe k) _) _ h in
    let same = ok-injective h in
    (
      sym (ap (λ p. p.0) same) ∙ (text_eq_iff t (lit "document")).0 (not_rejected _ _ named),
      split_once-parts b':' id t k (of_option _ (split_once b':' id) (t, k) parts)
          ∙ ap (λ p. p.0 ++ (b':' ∷ p.1)) same,
    )

-- The record of an id is that of a document, with the key that the id names.
pub document_record_id-key :
    (id : Text) (r : RecordId)
    → document_record_id id ≡ ok r
    → (r ≡ document_record r.key) × (id ≡ lit "document:" ++ r.key)
unfolding document_record_id lit
document_record_id-key id r h =
    let ((table, key), valid, h) = >>=-eq-ok (validate_document_id id) _ h in
    let (named, parts) = validate_document_id-parts id table key valid in
    let same : record { table = table; key = key } ≡ r = ok-injective h in
    (
      sym same
          ∙ ap (λ t. record { table = t; key = key }) named
          ∙ ap (λ x. document_record x.key) same,
      parts ∙ ap (λ t. t ++ (b':' ∷ key)) named ∙ ap (λ x. lit "document:" ++ x.key) same,
    )

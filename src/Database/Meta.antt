-- ===== src/Database/Meta.antt =====
-- What the statements of crates/skb-core/src/db.rs on the `meta` table promise, and what follows for
-- reading and writing its values.
use surreal_knowledge_base.Base.{
  ℕ, ◌≡◌, sym, ◌∙◌, Text, lit, text_eq, Option, none, some, List, if◌then◌else◌,
}
use surreal_knowledge_base.Error.{ok, >>=-eq-ok, ok-injective, checked-eq-ok}
use surreal_knowledge_base.Search.Filter.{fetch}
use surreal_knowledge_base.Database.{
  Statements, first_text, get_meta, set_meta, delete_meta, statement,
}

-- The value of a key in a state, and how the statements change it.
pub record IsMeta {S : Type 0} (value : Text → S → Option Text) (db : Statements S) : Type 0 where
  pub selects :
      (key : Text) (s : S) (rows : List (Option Text))
      → db.select_meta key s ≡ ok (ok rows)
      → first_text rows ≡ value key s
  pub inserts :
      (key val : Text) (s t : S)
      → db.insert_meta key val s ≡ ok (ok t)
      → (k : Text) → value k t ≡ (if text_eq key k then some val else value k s)
  pub removes :
      (key : Text) (s t : S)
      → db.remove_meta key s ≡ ok (ok t)
      → (k : Text) → value k t ≡ (if text_eq key k then none else value k s)
  pub defines :
      (dim : ℕ) (s t : S) → db.define_schema dim s ≡ ok (ok t) → (k : Text) → value k t ≡ value k s

module _ {S : Type 0} (value : Text → S → Option Text) (db : Statements S)
    (laws : IsMeta value db) where
  pub get_meta-value :
      (key : Text) (s : S) (v : Option Text) → get_meta db key s ≡ ok v → value key s ≡ v
  unfolding get_meta
  get_meta-value key s v h =
      let (rows, found, h) = >>=-eq-ok (fetch (lit "get_meta") (db.select_meta key s)) _ h in
      sym (laws.selects key s rows (checked-eq-ok _ _ (db.select_meta key s) rows found))
      ∙ ok-injective h

  pub set_meta-value :
      (key val : Text) (s t : S)
      → set_meta db key val s ≡ ok t
      → (k : Text) → value k t ≡ (if text_eq key k then some val else value k s)
  unfolding set_meta
  set_meta-value key val s t h =
      laws.inserts key val s t (checked-eq-ok _ _ (db.insert_meta key val s) t h)

  pub delete_meta-value :
      (key : Text) (s t : S)
      → delete_meta db key s ≡ ok t
      → (k : Text) → value k t ≡ (if text_eq key k then none else value k s)
  unfolding delete_meta
  delete_meta-value key s t h = laws.removes key s t (checked-eq-ok _ _ (db.remove_meta key s) t h)

  pub define_schema-value :
      (label : Text) (dim : ℕ) (s t : S)
      → statement label (db.define_schema dim s) ≡ ok t
      → (k : Text) → value k t ≡ value k s
  define_schema-value label dim s t h =
      laws.defines dim s t (checked-eq-ok _ _ (db.define_schema dim s) t h)

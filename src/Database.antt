-- ===== src/Database.antt =====
-- crates/skb-core/src/db.rs: the `meta` table, opening, the test for a new database, and the
-- migration. The statements are the database's; `S` is its state.
pub mod Open
pub mod Meta
use surreal_knowledge_base.Base.{
  ℕ, zero, Text, lit, text_eq, Bool, true, false, Option, none, some, List, [], ◌∷◌, ◌++◌,
}
use surreal_knowledge_base.Error.{
  ErrorCode, SkbError, skb_error, Outcome, ok, err, ◌>>=◌, ◌>>◌, map_err,
}
use surreal_knowledge_base.Error.{code_str}
use surreal_knowledge_base.Error.Action.{Action, ◌▸◌, ◌⨾◌, return, of_outcome, reading, writing}
use surreal_knowledge_base.Search.Filter.{Query, fetch, db_error}
use surreal_knowledge_base.Search.Hits.{unwrap_or}

-- A row of the check for duplicate chunks.
pub record DupRow : Type 0 where
  pub doc_id : Option Text
  pub idx : Option Text

pub record Statements (S : Type 0) : Type 0 where
  -- `SELECT meta_value FROM meta WHERE key = $key`, where `as_str` finds a text or not.
  pub select_meta : Text → S → Query (List (Option Text))
  -- `SET_META_SQL`
  pub insert_meta : Text → Text → S → Outcome Text (Outcome Text S)
  pub remove_meta : Text → S → Outcome Text (Outcome Text S)
  -- `INFO FOR DB`: the number of tables of its first row, if it has the shape that is expected.
  pub info : S → Query (Option ℕ)
  -- The schema for a dimension.
  pub define_schema : ℕ → S → Outcome Text (Outcome Text S)
  pub duplicates : S → Query (List DupRow)

abbrev pub first_text : List (Option Text) → Option Text
first_text [] = none
first_text (v ∷ _) = v

abbrev is_zero : Option ℕ → Bool
is_zero (some zero) = true
is_zero _ = false

abbrev text_is : Text → Option Text → Bool
text_is t none = false
text_is t (some v) = text_eq v t

unfoldable pub sample : List DupRow → Text
sample [] = []
sample (r ∷ []) = unwrap_or (lit "?") r.doc_id ++ lit " idx=" ++ unwrap_or (lit "?") r.idx
sample (r ∷ s ∷ rs) =
    unwrap_or (lit "?") r.doc_id
    ++ lit " idx="
    ++ unwrap_or (lit "?") r.idx
    ++ lit ", "
    ++ sample (s ∷ rs)

-- `Display` of an error.
unfoldable pub show_error : SkbError → Text
unfolding code_str
show_error e = lit "[" ++ code_str e.code ++ lit "] " ++ e.message

-- A statement that is sent and checked.
abbrev pub statement : {S : Type 0} → Text → Outcome Text (Outcome Text S) → Outcome SkbError S
statement label sent = do
  r ← map_err (db_error label) sent
  map_err (db_error (label ++ lit " check")) r

no_duplicates : List DupRow → Outcome SkbError (Unit {0})
unfolding sample
no_duplicates [] = ok tt
no_duplicates (r ∷ rs) = err (
    skb_error ErrorCode.db (
      lit "chunk table has duplicate (document, idx) rows; resolve before opening: "
      ++ sample (r ∷ rs)))

module _ {S : Type 0} (db : Statements S) where
  -- `Db::get_meta`
  unfoldable pub get_meta : Text → S → Outcome SkbError (Option Text)
  get_meta key s = do rows ← fetch (lit "get_meta") (db.select_meta key s); ok (first_text rows)

  -- `set_meta_impl` and `set_meta_tx`, which are the same statement.
  unfoldable pub set_meta : Text → Text → S → Outcome SkbError S
  set_meta key val s = statement (lit "set_meta") (db.insert_meta key val s)

  -- `delete_meta`
  unfoldable pub delete_meta : Text → S → Outcome SkbError S
  delete_meta key s = statement (lit "delete_meta") (db.remove_meta key s)

  -- `Db::is_new_database`
  unfoldable pub is_new_database : S → Outcome SkbError Bool
  is_new_database s = do tables ← fetch (lit "info db") (db.info s); ok (is_zero tables)

  duplicate_rows : S → Outcome SkbError (List DupRow)
  duplicate_rows s = do
    r ← map_err (db_error (lit "migrate dup check")) (db.duplicates s)
    map_err (db_error (lit "migrate dup take")) r

  mark_checked : S → Outcome SkbError S
  unfolding set_meta show_error
  mark_checked s =
      map_err (λ e. skb_error ErrorCode.db (lit "migrate dup mark: " ++ show_error e))
        (set_meta (lit "dup_check_v1") (lit "ok") s)

  check_duplicates : Bool → Action S (Unit {0})
  unfolding duplicate_rows no_duplicates mark_checked
  check_duplicates true = return tt
  check_duplicates false =
      reading duplicate_rows ▸ λ rows. of_outcome (no_duplicates rows) ⨾ writing mark_checked

  -- `Db::migrate`
  unfoldable pub migrate : ℕ → Action S (Unit {0})
  unfolding get_meta check_duplicates
  migrate dim =
      writing (λ s. statement (lit "migrate") (db.define_schema dim s))
      ⨾ (reading (get_meta (lit "dup_check_v1")) ▸ λ checked.
          check_duplicates (text_is (lit "ok") checked))

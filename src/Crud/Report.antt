-- ===== src/Crud/Report.antt =====
-- `stats` and `doctor` of crates/skb-core/src/crud.rs.
use surreal_knowledge_base.Base.{
  ℕ, Text, lit, Bool, true, false, Option, List, [], ◌∷◌, ◌++◌, ◌==◌, is_empty, if◌then◌else◌,
}
use surreal_knowledge_base.Error.{SkbError, Outcome, ok, err, panic, out_of_fuel, ◌>>=◌}
use surreal_knowledge_base.Search.Filter.{Query, fetch}
use surreal_knowledge_base.Search.Hits.{text_or_empty}
use surreal_knowledge_base.Database.{Statements, get_meta, show_error}
use surreal_knowledge_base.Ingest.Upload.{first_count}

pub record Stats : Type 0 where
  pub document_count : ℕ
  pub chunk_count : ℕ
  pub total_tokens : ℕ
  pub embedding_model : Text
  pub embedding_dimension : ℕ

pub record Counts (S : Type 0) : Type 0 where
  pub count_documents : S → Query (List (Option ℕ))
  pub count_chunks : S → Query (List (Option ℕ))
  pub sum_tokens : S → Query (List (Option ℕ))
  -- `RETURN 1`, when it is sent and when it is checked.
  pub ping : S → Query (Unit {0})

pub record DoctorReport : Type 0 where
  pub db_connected : Bool
  pub embedding_dimension : ℕ
  pub tokenizer_vocab : ℕ
  pub model : Text
  pub schema_version : Text
  pub tokenizer_version : Text
  pub tokenizer_fingerprint_schema : Text
  pub errors : List Text

-- `DoctorReport::is_healthy`
unfoldable pub is_healthy : DoctorReport → Bool
is_healthy r = elim r.errors [ [] ↦ true | _ ∷ _ ↦ false ]

abbrev push_error : Text → DoctorReport → DoctorReport
push_error m r = record r { errors = r.errors ++ (m ∷ []) }

abbrev push_if : Bool → Text → DoctorReport → DoctorReport
push_if b m r = if b then push_error m r else r

-- A value of the metadata goes into the report, or its error does.
unfoldable pub note_meta :
    (Text → DoctorReport → DoctorReport)
    → Text
    → Outcome SkbError (Option Text)
    → DoctorReport
    → Outcome SkbError DoctorReport
unfolding show_error
note_meta set key (ok v) r = ok (set (text_or_empty v) r)
note_meta set key (err e) r =
    ok (push_error (lit "read " ++ key ++ lit " meta: " ++ show_error e) r)
note_meta set key panic r = panic
note_meta set key out_of_fuel r = out_of_fuel

unfoldable pub note_empty : DoctorReport → DoctorReport
note_empty r =
    let r1 =
      push_if (r.embedding_dimension == 0) (lit "embedding dimension is 0 (model not loaded?)") r in
    let r2 =
      push_if (r.tokenizer_vocab == 0) (lit "tokenizer vocab is 0 (tokenizer not loaded?)") r1 in
    let r3 = push_if (is_empty r.model) (lit "embedding model is not recorded in meta") r2 in
    let r4 =
      push_if (is_empty r.tokenizer_version) (lit "tokenizer_version is not recorded in meta") r3 in
    push_if (is_empty r.tokenizer_fingerprint_schema)
      (lit "tokenizer_fingerprint_schema is not recorded in meta") r4

module _ {S : Type 0} (db : Counts S) (meta : Statements S) where
  -- `stats`
  unfoldable pub stats : ℕ → S → Outcome SkbError Stats
  unfolding get_meta
  stats dimension s = do
    documents ← fetch (lit "stats") (db.count_documents s)
    chunks ← fetch (lit "stats chunk") (db.count_chunks s)
    tokens ← fetch (lit "stats tokens") (db.sum_tokens s)
    model ← get_meta meta (lit "embedding_model") s
    ok (record {
      document_count = first_count documents;
      chunk_count = first_count chunks;
      total_tokens = first_count tokens;
      embedding_model = text_or_empty model;
      embedding_dimension = dimension;
    })

  read_metas : S → DoctorReport → Outcome SkbError DoctorReport
  unfolding note_meta get_meta
  read_metas s r = do
    r ←
        note_meta (λ v r. record r { model = v }) (lit "embedding_model")
          (get_meta meta (lit "embedding_model") s) (record r { db_connected = true })
    r ←
        note_meta (λ v r. record r { schema_version = v }) (lit "schema_version")
          (get_meta meta (lit "schema_version") s) r
    r ←
        note_meta (λ v r. record r { tokenizer_version = v }) (lit "tokenizer_version")
          (get_meta meta (lit "tokenizer_version") s) r
    note_meta (λ v r. record r { tokenizer_fingerprint_schema = v })
        (lit "tokenizer_fingerprint_schema") (get_meta meta (lit "tokenizer_fingerprint_schema") s)
        r

  connected : S → Query (Unit {0}) → DoctorReport → Outcome SkbError DoctorReport
  unfolding read_metas
  connected s (ok (ok _)) r = read_metas s r
  connected s (ok (err e)) r = ok (push_error (lit "SurrealDB connection: " ++ e) r)
  connected s (err e) r = ok (push_error (lit "SurrealDB connection: " ++ e) r)
  connected s (ok panic) r = panic
  connected s (ok out_of_fuel) r = out_of_fuel
  connected s panic r = panic
  connected s out_of_fuel r = out_of_fuel

  -- `doctor`, for the dimension of the embedder and the size of the tokenizer's vocabulary.
  unfoldable pub doctor : ℕ → ℕ → S → Outcome SkbError DoctorReport
  unfolding connected note_empty
  doctor dimension vocab s = do
    r ← connected s (db.ping s) (record {
      db_connected = false;
      embedding_dimension = dimension;
      tokenizer_vocab = vocab;
      model = [];
      schema_version = [];
      tokenizer_version = [];
      tokenizer_fingerprint_schema = [];
      errors = [];
    })
    ok (note_empty r)

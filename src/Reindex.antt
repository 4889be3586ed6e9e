-- ===== src/Reindex.antt =====
-- crates/skb-core/src/reindex.rs: every document's chunks and mentions are rebuilt, with a marker in the
-- metadata for as long as this takes. Reindex/Document is the rebuild of one document.
pub mod Document
pub mod Frame
pub mod Metadata
pub mod Rows
pub mod Plan
pub mod Marker
pub mod Stored
pub mod Current
use surreal_knowledge_base.Base.{
  ℕ, ◌+◌, ◌%◌, Text, lit, show, text_eq, is_empty, Bool, true, false, not, ◌==◌, ◌||◌, Option, none,
  some, List, [], ◌∷◌, ◌++◌, map, length, if◌then◌else◌,
}
use surreal_knowledge_base.Base.Sort.{sort_by, text_le, dedup}
use surreal_knowledge_base.Error.{ErrorCode, SkbError, skb_error, Outcome, ok, ◌>>=◌, ◌>>◌, map_err}
use surreal_knowledge_base.Error.Action.{Action, ◌▸◌, ◌⨾◌, return, of_outcome, reading, writing}
use surreal_knowledge_base.Config.{Config}
use surreal_knowledge_base.Config.Parse.{parse_unsigned}
use surreal_knowledge_base.Search.Filter.{db_error}
use surreal_knowledge_base.Search.Hits.{text_or_empty}
use surreal_knowledge_base.Tokenize.Chunk.{Chunk, usize_mod}
use surreal_knowledge_base.Graph.Extract.{Patterns, extract_entities}
use surreal_knowledge_base.Ingest.Embed.{embed_batch}
use surreal_knowledge_base.Ingest.Upload.{total_tokens}
use surreal_knowledge_base.Database.{get_meta, set_meta, delete_meta, statement}
use surreal_knowledge_base.Facade.Fingerprint.{
  Json, Hashing, TokenizerMeta, tokenizer_source_for, tokenizer_fingerprint, fingerprint_schema,
}
use surreal_knowledge_base.Facade.Open.{Model}
use surreal_knowledge_base.Reindex.Document.{DocRow, Statements, rebuild_document_retrying}

pub record ReindexResult : Type 0 where
  pub documents_processed : ℕ
  pub chunks_created : ℕ
  pub tokens_total : ℕ
  pub entities_extracted : ℕ

-- The store, and the calls of the progress callback, the last one first.
pub record World (S : Type 0) : Type 0 where
  pub store : S
  pub reports : List (ℕ × ℕ)

-- The number of different names, as a hash set counts them.
abbrev pub count_distinct : List Text → ℕ
count_distinct names = length (dedup (sort_by text_le names))

-- What is counted so far, with the names of the entities.
pub record Tally : Type 0 where
  pub documents : ℕ
  pub chunks : ℕ
  pub tokens : ℕ
  pub names : List Text

abbrev no_tally : Tally
no_tally = record { documents = 0; chunks = 0; tokens = 0; names = [] }

abbrev pub result_of : Tally → ReindexResult
result_of t = record {
  documents_processed = t.documents;
  chunks_created = t.chunks;
  tokens_total = t.tokens;
  entities_extracted = count_distinct t.names;
}

abbrev pub tally_document : List Chunk → List Text → Tally → Tally
tally_document chunks names t = record {
  documents = t.documents + 1;
  chunks = t.chunks + length chunks;
  tokens = (t.tokens + total_tokens chunks) % usize_mod;
  names = names ++ t.names;
}

-- Whether a row is passed over: without an id or a content.
abbrev is_skipped : DocRow → Bool
is_skipped doc = is_empty (text_or_empty doc.did) || is_empty (text_or_empty doc.content)

-- What the code needs beside the store: the tokenizer, the model, the libraries.
pub record Tools (F : Type 0) : Type 0 where
  pub chunk : Text → ℕ → ℕ → Outcome SkbError (List Chunk)
  pub config_json : Outcome SkbError Json
  pub embed : List Text → Outcome SkbError (List F)
  pub model : Model
  -- Whether the blocking thread of the embedder can be joined.
  pub join : Outcome Text (Unit {0})
  pub patterns : Patterns
  pub hashing : Hashing
  -- Whether a progress callback was given.
  pub has_progress : Bool

unfoldable pub on_store : {S A : Type 0} → Action S A → Action (World S) A
on_store m w = let (r, s) = m w.store in (r, record w { store = s })

module _ {F G S : Type 0} (db : Statements F G S) (tools : Tools F) (config : Config) where
  unfoldable pub report : ℕ → ℕ → Action (World S) (Unit {0})
  report done total w =
      (ok tt, if tools.has_progress then record w { reports = (done, total) ∷ w.reports } else w)

  chunks_of : DocRow → Outcome SkbError (List Chunk)
  chunks_of doc =
      tools.chunk (text_or_empty doc.content) config.chunking.max_tokens
        config.chunking.overlap_tokens

  dry_names : List Chunk → List Text
  dry_names [] = []
  dry_names (c ∷ cs) = map (λ e. e.name) (extract_entities tools.patterns c.content) ++ dry_names cs

  dry_tally : List Chunk → Tally → Tally
  unfolding dry_names
  dry_tally [] t = t
  dry_tally (c ∷ cs) t = tally_document (c ∷ cs) (dry_names (c ∷ cs)) t

  -- The loop of a dry run.
  unfoldable pub dry_run : List DocRow → Tally → Outcome SkbError Tally
  unfolding dry_tally chunks_of
  dry_run [] t = ok t
  dry_run (doc ∷ docs) t =
      let skipped = dry_run docs t in
      if is_skipped doc
      then skipped
      else (chunks_of doc >>= λ chunks. dry_run docs (dry_tally chunks t))

  embeddings_of : List Chunk → Outcome SkbError (List F)
  embeddings_of chunks = do
    map_err (λ m. skb_error ErrorCode.io (lit "embed join: " ++ m)) tools.join
    embed_batch tools.embed (map (λ c. c.content) chunks) config.embedding.batch_size

  rebuild_chunks : DocRow → ℕ → ℕ → Tally → List Chunk → Action (World S) Tally
  unfolding report embeddings_of rebuild_document_retrying on_store
  rebuild_chunks doc i total t [] = report (i + 1) total ⨾ return t
  rebuild_chunks doc i total t (c ∷ cs) = of_outcome (embeddings_of (c ∷ cs)) ▸ λ embeddings.
      on_store (
        rebuild_document_retrying db tools.patterns (text_or_empty doc.did)
          (text_or_empty doc.content) (c ∷ cs) embeddings)
      ▸ λ names. report (i + 1) total ⨾ return (tally_document (c ∷ cs) names t)

  rebuild_row : DocRow → ℕ → ℕ → Tally → Action (World S) Tally
  unfolding rebuild_chunks chunks_of
  rebuild_row doc i total t =
      if is_skipped doc
      then report (i + 1) total ⨾ return t
      else (of_outcome (chunks_of doc) ▸ rebuild_chunks doc i total t)

  -- The loop of `rebuild_all`, at the row with a number.
  unfoldable pub rebuild_rows : ℕ → ℕ → List DocRow → Tally → Action (World S) Tally
  unfolding rebuild_row
  rebuild_rows i total [] t = return t
  rebuild_rows i total (doc ∷ docs) t = rebuild_row doc i total t ▸ rebuild_rows (i + 1) total docs

  -- `rebuild_all`
  unfoldable pub rebuild_all : List DocRow → Action (World S) ReindexResult
  unfolding rebuild_rows
  rebuild_all docs = rebuild_rows 0 (length docs) docs no_tally ▸ λ t. return (result_of t)

  -- `transition_dimension` in its transaction.
  unfoldable pub transition_dimension : S → Outcome SkbError S
  transition_dimension s = do
    map_err (db_error (lit "reindex begin")) (db.begin 0 s)
    s ← statement (lit "reindex wipe") (db.wipe s)
    s ← statement (lit "reindex redefine") (db.redefine_field tools.model.dimension s)
    map_err (db_error (lit "reindex commit")) (db.commit 0 s)
    ok s

  -- `redefine_index` in its transaction.
  unfoldable pub redefine_index : S → Outcome SkbError S
  redefine_index s = do
    map_err (db_error (lit "reindex begin")) (db.begin 0 s)
    s ← statement (lit "reindex index") (db.define_index tools.model.dimension s)
    map_err (db_error (lit "reindex commit")) (db.commit 0 s)
    ok s

  unfoldable pub write_tokenizer : Text → TokenizerMeta → S → Outcome SkbError S
  write_tokenizer source meta s = do
    s ← set_meta db.meta (lit "tokenizer") config.embedding.tokenizer s
    s ← set_meta db.meta (lit "tokenizer_source") source s
    s ← set_meta db.meta (lit "tokenizer_algorithm") meta.algorithm s
    s ← set_meta db.meta (lit "tokenizer_version") meta.tokenizers_version s
    s ← set_meta db.meta (lit "tokenizer_fingerprint_schema") fingerprint_schema s
    set_meta db.meta (lit "tokenizer_fingerprint") meta.fingerprint s

  -- `update_metas`, one transaction.
  unfoldable pub update_metas : S → Outcome SkbError S
  unfolding write_tokenizer tokenizer_source_for tokenizer_fingerprint
  update_metas s = do
    map_err (db_error (lit "reindex meta begin")) (db.begin 0 s)
    s ← set_meta db.meta (lit "embedding_model") config.embedding.model s
    s ← set_meta db.meta (lit "embedding_dimension") (show tools.model.dimension) s
    s ← set_meta db.meta (lit "embedding_max_input_tokens") (show tools.model.max_input_tokens) s
    s ← set_meta db.meta (lit "schema_version") (lit "1") s
    json ← tools.config_json
    meta ← tokenizer_fingerprint tools.hashing (tokenizer_source_for config) json
    s ← write_tokenizer (tokenizer_source_for config) meta s
    map_err (db_error (lit "reindex meta commit")) (db.commit 0 s)
    ok s

  -- The rebuild between setting and deleting the marker.
  unfoldable pub rebuild : Bool → List DocRow → Action (World S) ReindexResult
  unfolding rebuild_all transition_dimension redefine_index update_metas on_store
  rebuild true docs =
      on_store (writing transition_dimension)
      ⨾ (on_store
            (writing (set_meta db.meta (lit "embedding_dimension") (show tools.model.dimension)))
          ⨾ (on_store (writing (set_meta db.meta (lit "embedding_model") config.embedding.model))
              ⨾ (rebuild_all docs ▸ λ result.
                  on_store (writing redefine_index)
                  ⨾ (on_store (writing update_metas) ⨾ return result))))
  rebuild false docs = rebuild_all docs ▸ λ result. on_store (writing update_metas) ⨾ return result

  abbrev marker_key : Text
  marker_key = lit "reindex_in_progress"

  unfoldable pub run_marked : Bool → List DocRow → Action (World S) ReindexResult
  unfolding rebuild on_store report
  run_marked dimension_changed docs =
      on_store (
        writing (set_meta db.meta marker_key (if dimension_changed then lit "dim" else lit "meta")))
      ⨾ (rebuild dimension_changed docs ▸ λ result.
          on_store (writing (delete_meta db.meta marker_key))
          ⨾ (report (length docs) (length docs) ⨾ return result))

  -- `v.parse::<usize>().ok()` of a stored dimension, against the model's.
  is_changed : Option Text → Bool
  is_changed none = false
  is_changed (some v) = elim (parse_unsigned v) [
    | ok d ↦ not (d == tools.model.dimension)
    | _ ↦ false
  ]

  is_dim : Option Text → Bool
  is_dim none = false
  is_dim (some v) = text_eq v (lit "dim")

  -- What is read before anything is written: whether the dimension changes, and the documents.
  unfoldable pub read_plan : S → Outcome SkbError (Bool × List DocRow)
  unfolding is_changed is_dim
  read_plan s = do
    stored ← get_meta db.meta (lit "embedding_dimension") s
    marker ← get_meta db.meta marker_key s
    r ← map_err (db_error (lit "reindex find")) (db.find_documents s)
    docs ← map_err (db_error (lit "reindex take")) r
    ok (is_changed stored || is_dim marker, docs)

  run_plan : Bool → Bool × List DocRow → Action (World S) ReindexResult
  unfolding dry_run run_marked
  run_plan true (_, docs) = of_outcome (dry_run docs no_tally) ▸ λ t. return (result_of t)
  run_plan false (dimension_changed, docs) = run_marked dimension_changed docs

  -- `reindex`, dry or not.
  unfoldable pub reindex : Bool → Action (World S) ReindexResult
  unfolding read_plan run_plan
  reindex dry = reading (λ w. read_plan w.store) ▸ run_plan dry

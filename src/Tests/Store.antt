-- ===== src/Tests/Store.antt =====
-- Opening and reindexing a store whose metadata is an association list (crates/skb-core/src/lib.rs,
-- reindex.rs and db.rs).
use surreal_knowledge_base.Database.Open.{open_db}
use surreal_knowledge_base.Base.{starts_with, strip_prefix, trim_start, is_whitespace}
use surreal_knowledge_base.Base.Sort.{sort_by, dedup, text_le}
use surreal_knowledge_base.Ingest.Embed.{embed_batch}
use surreal_knowledge_base.Graph.Extract.{
  extract_entities, dedup_entities, collected_entities, heading_lines, extract_sections,
}
use surreal_knowledge_base.Graph.Frontmatter.{frontmatter_list, frontmatter_body}
use surreal_knowledge_base.Graph.Sections.{link_sections}
use surreal_knowledge_base.Tokenize.Headings.{heading_starts, is_heading_line}
use surreal_knowledge_base.Config.{resolve_embedding_settings, validate}
use surreal_knowledge_base.Base.{
  ℕ, ◌≡◌, refl, sym, ap, ◌∙◌, ◌⊎◌, Text, text_eq, text_eq_iff, lit, none, some, List, [], ◌∷◌, true,
  false, length, arith, if◌then◌else◌, map,
}
use surreal_knowledge_base.Base.Map.{get, put, get-put}
use surreal_knowledge_base.Error.{Outcome, ok, err, ok-injective}
use surreal_knowledge_base.Config.{Config, default_config}
use surreal_knowledge_base.Database
use surreal_knowledge_base.Database.{first_text, is_new_database, get_meta, set_meta, migrate}
use surreal_knowledge_base.Database.Meta.{IsMeta}
use surreal_knowledge_base.Database.Open.{Engine}
use surreal_knowledge_base.Facade.Fingerprint.{Hashing, null}
use surreal_knowledge_base.Facade.Open.{Host, Transactions, Parts, mock_model, open_store}
use surreal_knowledge_base.Facade.Open.Accepted.{IsMatching, open_store-IsMatching}
use surreal_knowledge_base.Reindex.{World, Tools, ReindexResult, reindex}
use surreal_knowledge_base.Reindex.Document
use surreal_knowledge_base.Reindex.Document.{DocRow}
use surreal_knowledge_base.Reindex.Frame.{IsFramed}
use surreal_knowledge_base.Reindex.Marker.{IsRecoverable, reindex-IsRecoverable}
use surreal_knowledge_base.Reindex.Current.{IsCurrent, reindex-IsCurrent}
use surreal_knowledge_base.Tests.Fetch.{config}
use surreal_knowledge_base.Tests.Upload.{patterns}

abbrev Metadata : Type 0
Metadata = List (Text × Text)

abbrev without : Text → Metadata → Metadata
without k [] = []
without k ((j, v) ∷ m) = let rest = without k m in if text_eq j k then rest else (j, v) ∷ rest

get-without :
    (k j : Text) (m : Metadata) → get j (without k m) ≡ (if text_eq k j then none else get j m)
unfolding get
get-without k j [] = ground arith
get-without k j ((i, v) ∷ m) =
    ground (arith, text_eq_iff k j, text_eq_iff i k, text_eq_iff i j, get-without k j m)

abbrev meta_table : Database.Statements Metadata
meta_table = record {
  select_meta = λ k m. ok (ok (get k m ∷ []));
  insert_meta = λ k v m. ok (ok (put k v m));
  remove_meta = λ k m. ok (ok (without k m));
  info = λ m. ok (ok (some (length m)));
  define_schema = λ dim m. ok (ok m);
  duplicates = λ m. ok (ok []);
}

meta_table-IsMeta : IsMeta get meta_table
meta_table-IsMeta = record {
  selects = λ k m rows h. sym (ap first_text (ok-injective (ok-injective h)));
  inserts = λ k v s t h j. ap (get j) (sym (ok-injective (ok-injective h))) ∙ get-put k j v s;
  removes = λ k s t h j. ap (get j) (sym (ok-injective (ok-injective h))) ∙ get-without k j s;
  defines = λ dim s t h k. ap (get k) (sym (ok-injective (ok-injective h)));
}

abbrev hashing : Hashing
hashing = record { to_string = λ j. ok (lit "json"); sha256 = λ b. b }

abbrev engine : Engine
engine = record {
  home = none;
  create_dir_all = λ p. ok tt;
  connect = λ p. ok tt;
  select = λ n d. ok tt;
}

abbrev host : Host
host = record {
  engine = engine;
  hub_client = ok tt;
  download = λ o n. ok (lit "tokenizer.json");
  load_tokenizer = λ p. ok (ok null);
  load_ort = none;
  hashing = hashing;
}

abbrev local_transactions : Transactions Metadata
local_transactions = record { begin = λ s. ok tt; commit = λ s. ok tt }

abbrev mock_config : Config
mock_config = record config {
  embedding = record config.embedding { onnx_path = lit "mock"; model = lit "m" };
}

abbrev opened_config : Config
opened_config = record mock_config {
  embedding = record mock_config.embedding { dimension = 8; max_input_tokens = 8192 };
}

-- A store without a stored dimension.
abbrev stored : Metadata
stored = (lit "embedding_model", lit "m") ∷ (lit "dup_check_v1", lit "ok") ∷ []

abbrev opened : Parts
opened = record { tokenizer_json = ok null; model = mock_model; config = opened_config }

open_test : (open_store meta_table host local_transactions mock_config stored).0 ≡ ok opened
unfolding open_store lit open_db default_config starts_with text_eq resolve_embedding_settings
    validate is_new_database get_meta get set_meta put migrate
open_test = refl

open_store-IsMatching_example :
    (is_new_database meta_table stored ≡ ok true)
    ⊎ IsMatching get meta_table meta_table-IsMeta stored opened
open_store-IsMatching_example =
    open_store-IsMatching get meta_table meta_table-IsMeta host local_transactions mock_config
      stored (open_store meta_table host local_transactions mock_config stored).1 opened
      (ap (λ r. (r, (open_store meta_table host local_transactions mock_config stored).1))
        open_test)

-- One document; the other tables are not kept.
abbrev one_document : Document.Statements ℕ ℕ Metadata
one_document = record {
  meta = meta_table;
  find_documents = λ m. ok (ok (record { did = some (lit "1"); content = some (lit "text") } ∷ []));
  begin = λ n m. ok tt;
  commit = λ n m. ok tt;
  wipe = λ m. ok (ok m);
  redefine_field = λ d m. ok (ok m);
  define_index = λ d m. ok (ok m);
  delete_chunks = λ d m. ok (ok m);
  create_chunk = λ c m. ok (ok (ok (some (lit "chunk:1") ∷ []), m));
  run = λ w m. ok (ok m);
  exec = λ w m. ok (ok m);
  parse = λ t. err t;
}

same_state :
    {s t : Metadata} {u : Outcome Text (Outcome Text Metadata)}
    → u ≡ ok (ok s)
    → u ≡ ok (ok t)
    → (k : Text) → get k t ≡ get k s
same_state h j k = ap (get k) (sym (ok-injective (ok-injective (sym h ∙ j))))

one_document-IsFramed : IsFramed get one_document
one_document-IsFramed = record {
  wipes = λ s t h. same_state refl h;
  redefines = λ d s t h. same_state refl h;
  defines_index = λ d s t h. same_state refl h;
  deletes = λ id s t h. same_state refl h;
  creates = λ c s t rows h k. ap (λ r. get k r.1) (sym (ok-injective (ok-injective h)));
  runs = λ w s t h. same_state refl h;
  execs = λ w s t h. same_state refl h;
}

abbrev tools : Tools ℕ
tools = record {
  chunk = λ t m o. ok (record { content = t; token_count = 1; idx = 0; heading = none } ∷ []);
  config_json = ok null;
  embed = λ ts. ok (map (λ t. 0) ts);
  model = mock_model;
  join = ok tt;
  patterns = patterns;
  hashing = hashing;
  has_progress = true;
}

abbrev world : World Metadata
world = record { store = stored; reports = [] }

reindex-IsRecoverable_example :
    IsRecoverable get one_document meta_table-IsMeta one_document-IsFramed tools mock_config world
      (reindex one_document tools mock_config false world)
reindex-IsRecoverable_example =
    reindex-IsRecoverable get one_document meta_table-IsMeta one_document-IsFramed tools mock_config
      world

abbrev one_rebuilt : ReindexResult
one_rebuilt = record {
  documents_processed = 1;
  chunks_created = 1;
  tokens_total = 1;
  entities_extracted = 0;
}

reindex_test : (reindex one_document tools mock_config false world).0 ≡ ok one_rebuilt
unfolding reindex lit default_config text_eq get_meta get set_meta put embed_batch extract_entities
    dedup_entities collected_entities frontmatter_list frontmatter_body strip_prefix heading_lines
    heading_starts starts_with trim_start is_whitespace is_heading_line link_sections
    extract_sections Database.delete_meta sort_by dedup text_le
reindex_test = refl

reindex-IsCurrent_example :
    IsCurrent get one_document meta_table-IsMeta tools mock_config
      (reindex one_document tools mock_config false world).1.store
reindex-IsCurrent_example =
    reindex-IsCurrent get one_document meta_table-IsMeta tools mock_config world
      (reindex one_document tools mock_config false world).1 one_rebuilt (omega arith)
      (ap (λ r. (r, (reindex one_document tools mock_config false world).1)) reindex_test)

-- ===== src/Facade/Fingerprint.antt =====
-- The fingerprint of the tokenizer and its metadata: `tokenizer_fingerprint`, `sort_json_keys`,
-- `sync_tokenizer_meta` and `save_tokenizer_meta` of crates/skb-core/src/lib.rs.
use surreal_knowledge_base.Base.{
  Text, lit, text_eq, Bool, Option, none, some, ◌++◌, if◌then◌else◌, split_once,
}
use surreal_knowledge_base.Base.Sort.{text_le}
use surreal_knowledge_base.Error.{ErrorCode, SkbError, skb_error, Outcome, ok, err, ◌>>=◌, map_err}
use surreal_knowledge_base.Error.Action.{Action, ◌▸◌, ◌⨾◌, of_outcome, reading, writing}
use surreal_knowledge_base.Config.{Config}
use surreal_knowledge_base.Search.Hits.{unwrap_or}
use surreal_knowledge_base.Ingest.Fetch.{Bytes}
use surreal_knowledge_base.Ingest.Utf8.{encode}
use surreal_knowledge_base.Ingest.Document.{hex}
use surreal_knowledge_base.Database.{Statements, get_meta, set_meta}

-- `serde_json::Value`; a number is kept as its text.
mutual
  pub data Json : Type 0 where
    null : Json
    boolean : Bool → Json
    number : Text → Json
    string : Text → Json
    array : Items → Json
    object : Entries → Json

  pub data Items : Type 0 where
    nil : Items
    cons : Json → Items → Items

  pub data Entries : Type 0 where
    no_entries : Entries
    entry : Text → Json → Entries → Entries

-- `sort_by(|a, b| a.0.cmp(&b.0))` on the entries of an object, by insertion: as keys are distinct, every
-- sort gives the same.
unfoldable pub insert_entry : Text → Json → Entries → Entries
insert_entry k v no_entries = entry k v no_entries
insert_entry k v (entry j w rest) =
    let inserted = insert_entry k v rest in
    if text_le k j then entry k v (entry j w rest) else entry j w inserted

unfoldable mutual
  -- `sort_json_keys`
  pub sort_json_keys : Json → Json
  sort_json_keys null = null
  sort_json_keys (boolean b) = boolean b
  sort_json_keys (number n) = number n
  sort_json_keys (string s) = string s
  sort_json_keys (array items) = array (sort_items items)
  sort_json_keys (object entries) = object (sort_entries entries)

  sort_items : Items → Items
  sort_items nil = nil
  sort_items (cons v vs) = cons (sort_json_keys v) (sort_items vs)

  sort_entries : Entries → Entries
  sort_entries no_entries = no_entries
  sort_entries (entry k v rest) = insert_entry k (sort_json_keys v) (sort_entries rest)

-- A field of an object, by its name.
field_of : Text → Entries → Option Json
field_of k no_entries = none
field_of k (entry j v rest) = let found = field_of k rest in if text_eq j k then some v else found

field : Text → Option Json → Option Json
unfolding field_of
field k (some (object entries)) = field_of k entries
field k _ = none

as_text : Option Json → Option Text
as_text (some (string s)) = some s
as_text _ = none

-- `config.pointer("/model/type")` as a text.
unfoldable pub algorithm_of : Json → Text
unfolding field as_text
algorithm_of config =
    unwrap_or (lit "unknown") (as_text (field (lit "type") (field (lit "model") (some config))))

pub record TokenizerMeta : Type 0 where
  pub fingerprint : Text
  pub algorithm : Text
  pub tokenizers_version : Text

abbrev pub fingerprint_schema : Text
fingerprint_schema = lit "1"

abbrev pub tokenizer_crate_version : Text
tokenizer_crate_version = lit "0.23.1"

-- What the fingerprint needs of libraries: the JSON printer, and the hash.
pub record Hashing : Type 0 where
  pub to_string : Json → Outcome Text Text
  pub sha256 : Bytes → Bytes

-- `tokenizer_source_for`
unfoldable pub tokenizer_source_for : Config → Text
tokenizer_source_for config =
    if text_eq config.embedding.tokenizer (lit "auto")
    then config.embedding.model
    else config.embedding.tokenizer

-- What is hashed: the schema, the crate, the source, the algorithm and the configuration.
unfoldable pub fingerprint_input : Text → Json → Json
fingerprint_input source config = object (
    entry (lit "schema") (string fingerprint_schema) (
      entry (lit "tokenizers") (string tokenizer_crate_version) (
        entry (lit "source") (string source) (
          entry (lit "algorithm") (string (algorithm_of config))
            (entry (lit "config") config no_entries)))))

-- `tokenizer_fingerprint`
unfoldable pub tokenizer_fingerprint : Hashing → Text → Json → Outcome SkbError TokenizerMeta
unfolding sort_json_keys fingerprint_input algorithm_of
tokenizer_fingerprint h source config = do
  canonical ←
      map_err (λ e. skb_error ErrorCode.tokenize (lit "canonicalize tokenizer config: " ++ e))
        (h.to_string (sort_json_keys (fingerprint_input source config)))
  ok (record {
    fingerprint = hex (h.sha256 (encode canonical));
    algorithm = algorithm_of config;
    tokenizers_version = tokenizer_crate_version;
  })

-- `parse_hf_model`: the owner and the name.
unfoldable pub parse_hf_model : Text → Text × Text
parse_hf_model model = elim (split_once b'/' model) [
  | none ↦ (model, model)
  | some (owner, name) ↦ (owner, name)
]

module _ {S : Type 0} (db : Statements S) where
  -- `save_tokenizer_meta`
  unfoldable pub save_tokenizer_meta : Config → Text → TokenizerMeta → Action S (Unit {0})
  save_tokenizer_meta config source meta =
      writing (set_meta db (lit "tokenizer") config.embedding.tokenizer)
      ⨾ writing (set_meta db (lit "tokenizer_source") source)
      ⨾ writing (set_meta db (lit "tokenizer_algorithm") meta.algorithm)
      ⨾ writing (set_meta db (lit "tokenizer_version") meta.tokenizers_version)
      ⨾ writing (set_meta db (lit "tokenizer_fingerprint_schema") fingerprint_schema)
      ⨾ writing (set_meta db (lit "tokenizer_fingerprint") meta.fingerprint)

  sync_stored : Config → Text → TokenizerMeta → Option Text → Action S (Unit {0})
  sync_stored config source meta none = save_tokenizer_meta config source meta
  sync_stored config source meta (some stored) =
      if text_eq stored meta.fingerprint
      then save_tokenizer_meta config source meta
      else of_outcome (
          err (
            skb_error ErrorCode.model_mismatch (
              lit
                "tokenizer fingerprint mismatch. Run reindex to rebuild with the new tokenizer.")))

  -- `sync_tokenizer_meta`
  unfoldable pub sync_tokenizer_meta : Config → Text → TokenizerMeta → Action S (Unit {0})
  unfolding sync_stored save_tokenizer_meta
  sync_tokenizer_meta config source meta =
      reading (get_meta db (lit "tokenizer_fingerprint")) ▸ sync_stored config source meta

-- ===== src/Lib.antt =====
-- A model of surreal-knowledge-base, a local knowledge base with vector and keyword search and a
-- graph of entities, as it is written in Rust in crates/skb-core, with the error responses and the
-- sessions of crates/skb-server.
--
-- The parts and the files that model them:
--   * Error, Error/Codes: crates/skb-core/src/error.rs, `SkbError` and `ErrorCode`. `Outcome` is
--     what a Rust function that returns `Result` can do: a value, an error, a panic; and, for a
--     loop on fuel, the end of the fuel.
--   * Config with its children: crates/skb-core/src/config.rs. Config has the structs, their
--     defaults, `validate` and `resolve_embedding_settings`; Config/Parse `from_str` and the number
--     parser of the standard library; Config/Env `apply_env_overrides`, one definition for each run
--     of statements; Config/Load `load`.
--   * Tokenize with its children: crates/skb-core/src/tokenize.rs. Tokenize/Headings is
--     `heading_starts`, `heading_at` and `heading_text`; Tokenize/Chunk the loop of
--     `TokenizersImpl::chunk`, a round in the pieces of its body.
--   * Search with its children: crates/skb-core/src/search.rs. Search/Request is
--     `SearchRequest::validate`; Search/Terms `match_terms`; Search/Hits `rows_to_hits`;
--     Search/Fusion the merge in `hybrid_search`; Search/Filter `apply_filter`, which
--     Search/Filter/Kept is about; Search/Run the search functions over a backend.
--   * Graph with its children: crates/skb-core/src/graph.rs. Graph/Requests has the requests and
--     their checks; Graph/Ids the record ids, in quotes in Graph/Ids/Quoted; Graph/Frontmatter `frontmatter_list`; Graph/Extract
--     `extract_entities` and `extract_sections`; Graph/Sections `link_section_hierarchy`;
--     Graph/Index the writes of entities and links; Graph/Query `graph_query`,
--     over the rows of Graph/Rows; Graph/Expand `expand_search_hits`, which Graph/Expand/Fresh is
--     about.
--   * Ingest with its children: crates/skb-core/src/ingest.rs. Ingest/Address is `is_blocked_ip`;
--     Ingest/Fetch `fetch_url`, `validate_url_host` and the resolver; Ingest/Text `mime_for` and the
--     text extraction; Ingest/Source and Ingest/Document `extract_document_data` and what it calls;
--     Ingest/Embed `embed_batch`; Ingest/Store `store_and_index`, with the tables that it changes in
--     Ingest/Store/Tables; Ingest/Upload `upload`.
--   * Database with its children: crates/skb-core/src/db.rs. Database has the metadata table,
--     `is_new_database` and `migrate`; Database/Open `Db::open`; Database/Meta what the statements on
--     the metadata promise.
--   * Crud with its children: crates/skb-core/src/crud.rs. Crud/Requests has the requests, their
--     checks and `document_record_id`; Crud/Listing `list_documents`; Crud/Documents `get_document`
--     and `delete_document`; Crud/Report `stats` and `doctor`.
--   * Facade with its children: crates/skb-core/src/lib.rs. Facade/Open is `open_inner`;
--     Facade/Fingerprint `tokenizer_fingerprint` and the tokenizer's metadata; Facade/Search
--     `search`; Facade/Snapshot `document_snapshot`; Facade/Query `query_surql` and
--     `extract_and_save_entities`.
--   * Reindex with its children: crates/skb-core/src/reindex.rs. Reindex/Document rebuilds one
--     document, and Reindex has the loop over them, the marker and the metadata; Reindex/Plan is
--     about what it reads first, Reindex/Marker about every end of a run, Reindex/Current about one
--     that succeeds, with the metadata that Reindex/Stored is about.
--   * Server/Error: crates/skb-server/src/error.rs, `ApiError`. Server/Auth:
--     crates/skb-server/src/auth.rs, the session of a request and the role of a registration.
--     Server/Session: `logout`, over the table of revoked sessions.
--   * Base with its children: texts, lists, sorting, maps and floats, as the parts share them.
--     Tests: runs on concrete inputs.
--
-- The parts meet as in the code: Graph/Extract reads the headings of Tokenize/Headings, Search/Run
-- passes rows through Search/Fusion and Search/Filter, Ingest/Store and Reindex/Document write with
-- Graph/Index and Graph/Sections, Facade and Reindex read and set the metadata of Database, and every
-- part answers with the errors of Error. Code that changes a state and can end with an error is an
-- `Action` of Error/Action: the outcome, and the state after it.
--
-- How the code is modelled. A text is a list of code points; byte offsets count the UTF-8 lengths,
-- and a slice that is not on character boundaries is a panic. Numbers are natural numbers; the
-- addition of `max_tokens` in the chunking loop wraps around at 2^64, and the expiry of a session
-- is cast to a signed number of 64 bits (Base/Int) before it is stored. A float type with its
-- operations is a parameter, as are the Unicode tables, the regular expressions, the tokenizer, the
-- embedder, the decoding of session tokens, the environment, the file system and the queries and
-- writes of the database. A query has two points of failure, the call and the reading of its
-- result. A hash map is an association list; where the code iterates over one, the order is left
-- open.
--
-- Bounds. The chunking loop runs on fuel, one round more than there are tokens; each round that
-- does not end the loop moves its start forward. The traversal of `graph_query` runs once for
-- each depth. The loop of `document_snapshot` has one round more than documents are asked for, as
-- each round that goes on adds one; the fetch loop follows at most `MAX_REDIRECTS` redirects, and
-- a document is rebuilt in at most 8 attempts. The expansion of a hit runs once for each hop. All
-- other loops are structural.
--
-- Not modelled: the embedding layer of crates/skb-core, which calls a library; crates/skb-cli,
-- crates/skb-mcp and the rest of crates/skb-server; the web applications. They are I/O around the
-- parts above or parts of their own that rest on them.
pub mod Base
pub mod Error
pub mod Config
pub mod Tokenize
pub mod Search
pub mod Graph
pub mod Server
pub mod Ingest
pub mod Database
pub mod Crud
pub mod Facade
pub mod Reindex
pub mod Tests

-- ===== src/Tests/Crud.antt =====
-- Listing, snapshots and deletion over tables in memory (crates/skb-core/src/crud.rs and lib.rs).
use surreal_knowledge_base.Base.{
  ℕ, ◌≡◌, refl, ap, sym, inl, inr, Text, text_eq, text_eq_iff, lit, Bool, Bool-cases, true, false,
  none, some, List, [], ◌∷◌, map, take, drop, length, filter_by, any_by, arith, is_whitespace, trim,
  split_once,
}
use surreal_knowledge_base.Error.{ok, ok-injective}
use surreal_knowledge_base.Ingest.Store.{NewChunk, document_record}
use surreal_knowledge_base.Ingest.Store.Tables.{Document, Tables, HasKey}
use surreal_knowledge_base.Ingest.Store.Consistent.{IsConsistent}
use surreal_knowledge_base.Ingest.Upload.{first_count}
use surreal_knowledge_base.Crud.Requests.{DeleteDocumentRequest}
use surreal_knowledge_base.Crud.Listing.{Listing, SummaryRow, DocumentSummary}
use surreal_knowledge_base.Crud.Documents.{Documents, delete_document}
use surreal_knowledge_base.Crud.Tables.{without}
use surreal_knowledge_base.Crud.Deleted.{IsDeleting, IsDeletedOr, delete_document-IsDeletedOr}
use surreal_knowledge_base.Facade.Snapshot.{document_snapshot}
use surreal_knowledge_base.Facade.Snapshot.Pages.{IsListing, document_snapshot-first}
use surreal_knowledge_base.Tests.Upload.{hi_document}

abbrev row : Text → SummaryRow
row id = record { id = some id; title = none; source = none; sha256 = none; created_at = none }

abbrev three_rows : List SummaryRow
three_rows = row (lit "document:a") ∷ row (lit "document:b") ∷ row (lit "document:c") ∷ []

abbrev paged_rows : Listing (List SummaryRow)
paged_rows = record {
  select_page = λ p rows. ok (ok (take p.limit (drop p.offset rows)));
  select_counts = λ ids rows. ok (ok []);
}

three_rows-IsListing : IsListing paged_rows three_rows three_rows
three_rows-IsListing = record { pages = λ limit offset. refl; counts = λ ids. ([], refl) }

document_snapshot-first_example :
    (docs : List DocumentSummary) × (document_snapshot paged_rows three_rows 2 ≡ ok (docs, true))
    × (map (λ d. d.id) docs ≡ lit "document:a" ∷ lit "document:b" ∷ [])
document_snapshot-first_example =
    document_snapshot-first paged_rows three_rows three_rows three_rows-IsListing 2 (omega arith)

abbrev has_key : Text → List Document → Bool
has_key key ds = any_by (λ d. text_eq d.key key) ds

has_key-HasKey : (key : Text) (ds : List Document) → has_key key ds ≡ true → HasKey key ds
has_key-HasKey key [] h = cc
has_key-HasKey key (d ∷ ds) h = elim (Bool-cases (text_eq d.key key)) [
  | inl e ↦ inl ((text_eq_iff d.key key).0 e)
  | inr e ↦ inr (has_key-HasKey key ds (rw e at h))
]

abbrev found_row : Bool → List (Unit {0})
found_row true = tt ∷ []
found_row false = []

found_row-true :
    (b : Bool) (row : Unit {0}) (rows : List (Unit {0})) → found_row b ≡ row ∷ rows → b ≡ true
found_row-true true row rows h = refl
found_row-true false row rows h = cc

abbrev in_memory : Documents (Tables ℕ)
in_memory = record {
  select_document = λ id t. ok (ok []);
  select_chunks = λ id t. ok (ok []);
  begin = λ t. ok tt;
  lookup = λ id t. ok (ok (found_row (has_key id.key t.documents)));
  count_chunks = λ id t.
      ok (ok (some (length (filter_by (λ c. text_eq c.document.key id.key) t.chunks)) ∷ []));
  delete = λ id t. ok (ok (without id.key t));
  commit = λ t. ok tt;
}

in_memory-IsDeleting : IsDeleting (λ t. t) in_memory
in_memory-IsDeleting = record {
  finds = λ key s row rows h.
      has_key-HasKey key s.documents
        (found_row-true (has_key key s.documents) row rows (ok-injective (ok-injective h)));
  counts = λ key s rows h. ap first_count (sym (ok-injective (ok-injective h)));
  deletes = λ key s t h. sym (ok-injective (ok-injective h));
}

abbrev chunk_of : Text → NewChunk ℕ
chunk_of key = record {
  document = document_record key;
  idx = 0;
  content = lit "hi";
  token_count = 1;
  embedding = 0;
  heading = none;
}

abbrev two_documents : Tables ℕ
two_documents = record {
  documents =
      record { key = lit "a"; doc = record hi_document { sha256 = lit "1" } }
      ∷ record { key = lit "bb"; doc = record hi_document { sha256 = lit "22" } }
      ∷ [];
  chunks = chunk_of (lit "a") ∷ chunk_of (lit "bb") ∷ chunk_of (lit "a") ∷ [];
}

two_documents-IsConsistent : IsConsistent two_documents
unfolding lit
two_documents-IsConsistent = record {
  distinct_keys = ((λ e. omega (arith, ap length e), tt), (tt, tt));
  distinct_hashes = ((λ e. omega (arith, ap length e), tt), (tt, tt));
  no_orphans = (inl refl, (inr (inl refl), (inl refl, tt)));
}

abbrev delete_a : DeleteDocumentRequest
delete_a = record { id = lit "document:a" }

delete_test :
    (delete_document in_memory delete_a two_documents).0
    ≡ ok (record { document_id = lit "document:a"; chunks_deleted = 2 })
unfolding delete_document trim lit is_whitespace split_once text_eq
delete_test = refl

missing_test :
    (delete_document in_memory (record { id = lit "document:c" }) two_documents).1 ≡ two_documents
unfolding delete_document trim lit is_whitespace split_once text_eq
missing_test = refl

delete_document-IsDeletedOr_example :
    IsDeletedOr
      (λ t. t)
      in_memory
      in_memory-IsDeleting
      two_documents
      (lit "document:a")
      (delete_document in_memory delete_a two_documents)
delete_document-IsDeletedOr_example =
    delete_document-IsDeletedOr (λ t. t) in_memory in_memory-IsDeleting delete_a two_documents
      two_documents-IsConsistent

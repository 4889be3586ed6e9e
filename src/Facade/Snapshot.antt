-- ===== src/Facade/Snapshot.antt =====
-- `KnowledgeBase::document_snapshot` of crates/skb-core/src/lib.rs, over `list_documents`.
pub mod Pages
use surreal_knowledge_base.Base.{
  ℕ, zero, suc, ◌+◌, ◌-◌, ◌%◌, min, ltb, ◌||◌, Bool, none, some, List, [], ◌++◌, length, take,
  if◌then◌else◌,
}
use surreal_knowledge_base.Error.{SkbError, Outcome, ok, out_of_fuel, ◌>>=◌}
use surreal_knowledge_base.Tokenize.Chunk.{usize_mod}
use surreal_knowledge_base.Crud.Listing.{Listing, DocumentSummary, list_documents}

-- `PAGE.min(max + 1 - docs.len())`, which wraps around.
unfoldable pub wanted : ℕ → ℕ → ℕ
wanted max count = min 100 (((max + 1) % usize_mod + (usize_mod - count)) % usize_mod)

module _ {A : Type 0} (list : ℕ → ℕ → Outcome SkbError (List A)) (max : ℕ) where
  -- The loop, with the documents so far.
  unfoldable pub snapshot_loop : ℕ → List A → ℕ → Outcome SkbError (List A × Bool)
  unfolding wanted
  snapshot_loop zero docs offset = out_of_fuel
  snapshot_loop (suc fuel) docs offset = list (wanted max (length docs)) offset >>= λ page.
      let more = snapshot_loop fuel (docs ++ page) (offset + wanted max (length docs)) in
      if ltb (length page) (wanted max (length docs)) || ltb max (length (docs ++ page))
      then ok (take max (docs ++ page), ltb max (length (docs ++ page)))
      else more

module _ {S : Type 0} (db : Listing S) (s : S) where
  unfoldable pub list_page : ℕ → ℕ → Outcome SkbError (List DocumentSummary)
  unfolding list_documents
  list_page limit offset =
      list_documents db s
        (record { limit = some limit; offset = some offset; order = none; after = none })

  -- `document_snapshot`; a round that goes on has added a document.
  unfoldable pub document_snapshot : ℕ → Outcome SkbError (List DocumentSummary × Bool)
  unfolding snapshot_loop list_page
  document_snapshot max = snapshot_loop list_page max (max + 1) [] 0

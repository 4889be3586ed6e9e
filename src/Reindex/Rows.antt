-- ===== src/Reindex/Rows.antt =====
-- The loop over the documents of a reindex (crates/skb-core/src/reindex.rs) keeps the marker.
use surreal_knowledge_base.Base.{
  ℕ, ◌+◌, ◌≡◌, refl, ◌∙◌, inl, inr, Text, lit, Bool, true, false, Bool-cases, length, Option, some,
  List, [], ◌∷◌, if◌then◌else◌,
}
use surreal_knowledge_base.Error.{SkbError, Outcome, ok}
use surreal_knowledge_base.Error.Action.{
  Action, ◌▸◌, ◌⨾◌, return, of_outcome, writing, Keeps, bind-Keeps, chain-Keeps, return-Keeps,
  of_outcome-Keeps, written-kept,
}
use surreal_knowledge_base.Config.{Config}
use surreal_knowledge_base.Search.Hits.{text_or_empty}
use surreal_knowledge_base.Tokenize.Chunk.{Chunk}
use surreal_knowledge_base.Database.Meta.{IsMeta}
use surreal_knowledge_base.Reindex.{
  World, Tools, Tally, tally_document, on_store, report, rebuild_chunks, rebuild_row, rebuild_rows,
  rebuild_all, embeddings_of, chunks_of, is_skipped, no_tally, result_of,
}
use surreal_knowledge_base.Reindex.Document.{Statements, DocRow, rebuild_document_retrying}
use surreal_knowledge_base.Reindex.Frame.{IsFramed, marker, retrying-marker}

module _ {F G S : Type 0} (value : Text → S → Option Text) (db : Statements F G S)
    (laws : IsMeta value db.meta) (frame : IsFramed value db) (tools : Tools F)
    (config : Config) where
  abbrev pub mark : S → Option Text
  mark = marker value db laws frame

  -- The marker is set to a text.
  abbrev pub IsMarked : Text → S → Type 0
  IsMarked set s = value (lit "reindex_in_progress") s ≡ some set

  abbrev pub Marked : Text → World S → Type 0
  Marked set w = IsMarked set w.store

  module _ (set : Text) where
    abbrev MarkedWorld : World S → Type 0
    MarkedWorld = Marked set

    on_store-Keeps :
        {A : Type 0} (m : Action S A)
        → ((s : S) → mark (m s).1 ≡ mark s)
        → Keeps MarkedWorld (on_store m)
    unfolding on_store
    on_store-Keeps m same = record { kept = λ w h. same w.store ∙ h }

    pub writing-Keeps :
        (f : S → Outcome SkbError S)
        → ((s t : S) → f s ≡ ok t → mark t ≡ mark s)
        → Keeps MarkedWorld (on_store (writing f))
    writing-Keeps f same =
        on_store-Keeps (writing f)
          (λ s. written-kept (λ t. mark t ≡ mark s) s (f s) refl (λ t h. same s t h))

    pub report-Keeps : (done total : ℕ) → Keeps MarkedWorld (report db tools config done total)
    unfolding report
    report-Keeps done total = record { kept = λ w h. reported w h tools.has_progress }
      where
        reported :
            (w : World S)
            → MarkedWorld w
            → (b : Bool)
            → MarkedWorld (if b then record w { reports = (done, total) ∷ w.reports } else w)
        reported w h true = h
        reported w h false = h

    report_and-Keeps :
        {A : Type 0} (done total : ℕ) (a : A)
        → Keeps MarkedWorld (report db tools config done total ⨾ return a)
    report_and-Keeps done total a =
        chain-Keeps MarkedWorld (report db tools config done total) (return a)
          (report-Keeps done total) (return-Keeps MarkedWorld a)

    rebuild_chunks-Keeps :
        (doc : DocRow) (i total : ℕ) (t : Tally) (chunks : List Chunk)
        → Keeps MarkedWorld (rebuild_chunks db tools config doc i total t chunks)
    unfolding rebuild_chunks
    rebuild_chunks-Keeps doc i total t [] = report_and-Keeps (i + 1) total t
    rebuild_chunks-Keeps doc i total t (c ∷ cs) =
        let retrying =
          rebuild_document_retrying db tools.patterns (text_or_empty doc.did)
            (text_or_empty doc.content) (c ∷ cs) in
        let reported : List Text → Action (World S) Tally = λ names.
          report db tools config (i + 1) total ⨾ return (tally_document (c ∷ cs) names t) in
        bind-Keeps MarkedWorld (of_outcome (embeddings_of db tools config (c ∷ cs)))
          (λ es. on_store (retrying es) ▸ reported)
          (of_outcome-Keeps MarkedWorld (embeddings_of db tools config (c ∷ cs)))
          (λ es.
            bind-Keeps MarkedWorld (on_store (retrying es)) reported
              (on_store-Keeps (retrying es) (
                retrying-marker value db laws frame tools.patterns (text_or_empty doc.did)
                  (text_or_empty doc.content) (c ∷ cs) es))
              (λ names. report_and-Keeps (i + 1) total (tally_document (c ∷ cs) names t)))

    rebuild_row-Keeps :
        (doc : DocRow) (i total : ℕ) (t : Tally)
        → Keeps MarkedWorld (rebuild_row db tools config doc i total t)
    unfolding rebuild_row
    rebuild_row-Keeps doc i total t = elim (Bool-cases (is_skipped doc)) [
      | inl e ↦ rw e (report_and-Keeps (i + 1) total t)
      | inr e ↦ rw e (
          bind-Keeps MarkedWorld (of_outcome (chunks_of db tools config doc))
            (rebuild_chunks db tools config doc i total t)
            (of_outcome-Keeps MarkedWorld (chunks_of db tools config doc))
            (rebuild_chunks-Keeps doc i total t))
    ]

    rebuild_rows-Keeps :
        (i total : ℕ) (docs : List DocRow) (t : Tally)
        → Keeps MarkedWorld (rebuild_rows db tools config i total docs t)
    unfolding rebuild_rows
    rebuild_rows-Keeps i total [] t = return-Keeps MarkedWorld t
    rebuild_rows-Keeps i total (doc ∷ docs) t =
        bind-Keeps MarkedWorld (rebuild_row db tools config doc i total t)
          (rebuild_rows db tools config (i + 1) total docs) (rebuild_row-Keeps doc i total t)
          (rebuild_rows-Keeps (i + 1) total docs)

    pub rebuild_all-Keeps :
        (docs : List DocRow) → Keeps MarkedWorld (rebuild_all db tools config docs)
    unfolding rebuild_all
    rebuild_all-Keeps docs =
        bind-Keeps MarkedWorld (rebuild_rows db tools config 0 (length docs) docs no_tally)
          (λ t. return (result_of t)) (rebuild_rows-Keeps 0 (length docs) docs no_tally)
          (λ t. return-Keeps MarkedWorld (result_of t))

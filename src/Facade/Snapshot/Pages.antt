-- ===== src/Facade/Snapshot/Pages.antt =====
-- The pages of `document_snapshot` (crates/skb-core/src/lib.rs) are the first documents of the listing.
use surreal_knowledge_base.Base.{
  ℕ, zero, suc, ◌+◌, ◌-◌, ◌≤◌, ◌<◌, ◌≡◌, refl, sym, ap, ◌∙◌, subst, ◌⊎◌, append-take-drop,
  map_append, ltb, ◌==◌, ◌||◌, Bool, true, false, inl, inr, false≢true, Text, lit, none, List, [],
  ◌∷◌, ◌++◌, append_assoc, append-nil, length, length-append, length-map, map, take, drop, arith,
  lt→ltb, ltb→lt, ltb-false, length-take-le, if◌then◌else◌,
}
use surreal_knowledge_base.Error.{SkbError, Outcome, ok}
use surreal_knowledge_base.Search.Hits.{text_or_empty}
use surreal_knowledge_base.Graph.Ids.{RecordId}
use surreal_knowledge_base.Crud.Listing.{
  Listing, SummaryRow, CountRow, DocumentSummary, summary_of, counts_of, summaries, list_documents,
  page_ids, page_of,
}
use surreal_knowledge_base.Crud.Requests.{validate_list}
use surreal_knowledge_base.Facade.Snapshot.{wanted, snapshot_loop, list_page, document_snapshot}

map-take {ℓ} :
    {A B : Type ℓ} (f : A → B) (n : ℕ) (xs : List A) → map f (take n xs) ≡ take n (map f xs)
map-take f zero xs = refl
map-take f (suc n) [] = refl
map-take f (suc n) (x ∷ xs) = ap (λ zs. f x ∷ zs) (map-take f n xs)

module _ {ℓ} {A : Type ℓ} where
  take-append : (n : ℕ) (xs ys : List A) → n ≤ length xs → take n (xs ++ ys) ≡ take n xs
  take-append zero xs ys h = refl
  take-append (suc n) [] ys h = absurd (omega (arith, h))
  take-append (suc n) (x ∷ xs) ys h = ap (λ zs. x ∷ zs) (take-append n xs ys (omega (arith, h)))

  drop-append : (xs ys : List A) → drop (length xs) (xs ++ ys) ≡ ys
  drop-append [] ys = refl
  drop-append (x ∷ xs) ys = drop-append xs ys

  -- A piece that is too short is all there is.
  drop-short : (n : ℕ) (xs : List A) → length (take n xs) < n → drop n xs ≡ []
  drop-short zero xs h = absurd (omega (arith, h))
  drop-short (suc n) [] h = refl
  drop-short (suc n) (x ∷ xs) h = drop-short n xs (omega (arith, h))

or_true : (a b : Bool) → (a || b) ≡ true → (a ≡ true) ⊎ (b ≡ true)
or_true true b h = inl refl
or_true false b h = inr h

or_false : (a b : Bool) → (a || b) ≡ false → (a ≡ false) × (b ≡ false)
or_false true b h = absurd (false≢true (sym h))
or_false false b h = (refl, h)

-- The pages of a list, seen through `f`.
pub record IsPaged {A B : Type 0} (f : A → B) (list : ℕ → ℕ → Outcome SkbError (List A))
    (all : List B) : Type 0 where
  pub page :
      (limit offset : ℕ)
      → 0 < limit
      → limit ≤ 100
      → offset ≤ 1000000
      → (rows : List A) × (list limit offset ≡ ok rows)
        × (map f rows ≡ take limit (drop offset all))

wanted-small :
    (max count : ℕ)
    → count ≤ max
    → max ≤ 1000000
    → (0 < wanted max count) × (wanted max count ≤ 100) × (wanted max count ≤ (max + 1) - count)
unfolding wanted
wanted-small max count h k = (omega arith, omega arith, omega arith)

module _ {A B : Type 0} (f : A → B) (list : ℕ → ℕ → Outcome SkbError (List A)) (max : ℕ)
    (all : List B) (paged : IsPaged f list all) where
  -- The first documents, and whether there are more.
  abbrev IsFirst : Outcome SkbError (List A × Bool) → Type 0
  IsFirst o = (docs : List A) × (o ≡ ok (docs, ltb max (length all))) × (map f docs ≡ take max all)

  stop-IsFirst :
      (docs : List A) (rest : List B)
      → all ≡ (map f docs ++ rest)
      → (rest ≡ []) ⊎ (max < length docs)
      → IsFirst (ok (take max docs, ltb max (length docs)))
  stop-IsFirst docs rest parts (inl e) =
      let same : map f docs ≡ all =
        sym (parts ∙ ap (λ r. map f docs ++ r) e ∙ append-nil (map f docs)) in
      (
        take max docs,
        ap (λ n. ok (take max docs, ltb max n)) (sym (length-map f docs) ∙ ap length same),
        map-take f max docs ∙ ap (take max) same,
      )
  stop-IsFirst docs rest parts (inr h) =
      let longer : max < length (map f docs) = omega (arith, h, length-map f docs) in
      let all_longer : length all ≡ length (map f docs) + length rest =
        ap length parts ∙ length-append (map f docs) rest in
      (
        take max docs,
        ap (λ b. ok (take max docs, b))
            (lt→ltb max (length docs) h
              ∙ sym (lt→ltb max (length all) (omega (arith, longer, all_longer)))),
        map-take f max docs
            ∙ sym (take-append max (map f docs) rest (omega (arith, longer)))
            ∙ ap (take max) (sym parts),
      )

  pick-IsFirst :
      (b : Bool) (x y : Outcome SkbError (List A × Bool))
      → (b ≡ true → IsFirst x)
      → (b ≡ false → IsFirst y)
      → IsFirst (if b then x else y)
  pick-IsFirst true x y h k = h refl
  pick-IsFirst false x y h k = k refl

  snapshot_loop-IsFirst :
      (fuel : ℕ) (docs : List A) (rest : List B)
      → max ≤ 1000000
      → all ≡ (map f docs ++ rest)
      → length docs ≤ max
      → max < fuel + length docs
      → IsFirst (snapshot_loop list max fuel docs (length docs))
  unfolding snapshot_loop
  snapshot_loop-IsFirst zero docs rest small parts few fuelled =
      absurd (omega (arith, few, fuelled))
  snapshot_loop-IsFirst (suc fuel) docs rest small parts few fuelled =
      let want : ℕ = wanted max (length docs) in
      let (positive, capped, inside) = wanted-small max (length docs) few small in
      let (rows, answered, seen) =
        paged.page want (length docs) positive capped (omega (arith, few, small)) in
      let at_rest : drop (length docs) all ≡ rest =
        ap (drop (length docs)) parts
        ∙ subst (λ n. drop n (map f docs ++ rest) ≡ rest) (length-map f docs)
            (drop-append (map f docs) rest) in
      let seen : map f rows ≡ take want rest = seen ∙ ap (take want) at_rest in
      let parts : all ≡ (map f (docs ++ rows) ++ drop want rest) =
        parts
        ∙ ap (λ r. map f docs ++ r)
            (sym (append-take-drop want rest) ∙ ap (λ r. r ++ drop want rest) (sym seen))
        ∙ sym (append_assoc (map f docs) (map f rows) (drop want rest))
        ∙ ap (λ r. r ++ drop want rest) (sym (map_append f docs rows)) in
      let told : length (take want rest) ≡ length rows = ap length (sym seen) ∙ length-map f rows in
      let longer = length-append docs rows in
      let few_rows : length rows ≤ want = omega (arith, told, length-take-le want rest) in
      rw answered (
        pick-IsFirst (ltb (length rows) want || ltb max (length (docs ++ rows))) _ _
          (λ stops.
            stop-IsFirst (docs ++ rows) (drop want rest) parts
              (elim (or_true (ltb (length rows) want) (ltb max (length (docs ++ rows))) stops) [
                | inl e ↦
                    inl (drop-short want rest (omega (arith, told, ltb→lt (length rows) want e)))
                | inr e ↦ inr (ltb→lt max (length (docs ++ rows)) e)
              ]))
          (λ goes.
            let (full, more) =
              or_false (ltb (length rows) want) (ltb max (length (docs ++ rows))) goes in
            let exact : length rows ≡ want =
              omega (arith, few_rows, ltb-false (length rows) want full) in
            let here : length (docs ++ rows) ≡ length docs + want =
              longer ∙ ap (λ n. length docs + n) exact in
            subst (λ n. IsFirst (snapshot_loop list max fuel (docs ++ rows) n)) here
              (snapshot_loop-IsFirst fuel (docs ++ rows) (drop want rest) small parts
                (ltb-false max (length (docs ++ rows)) more)
                (omega (arith, here, positive, fuelled)))))

-- A listing that does not change while it is paged: its pages are pieces of some rows, and the chunks
-- of a page can be counted.
pub record IsListing {S : Type 0} (db : Listing S) (s : S) (rows : List SummaryRow) : Type 0 where
  pub pages :
      (limit offset : ℕ)
      → db.select_page
          (record {
            cursor_clause = [];
            order_by = lit "created_at DESC, id";
            limit = limit;
            offset = offset;
            after = none;
          })
          s
        ≡ ok (ok (take limit (drop offset rows)))
  pub counts : (ids : List RecordId) → (c : List CountRow) × (db.select_counts ids s ≡ ok (ok c))

module _ {S : Type 0} (db : Listing S) (s : S) (rows : List SummaryRow)
    (listing : IsListing db s rows) where
  abbrev ids : List Text
  ids = map (λ r. text_or_empty r.id) rows

  map-ids :
      (c : List (Text × ℕ)) (xs : List SummaryRow)
      → map (λ d. d.id) (map (summary_of c) xs) ≡ map (λ r. text_or_empty r.id) xs
  unfolding summary_of
  map-ids c [] = refl
  map-ids c (x ∷ xs) = ap (λ ys. text_or_empty x.id ∷ ys) (map-ids c xs)

  summaries-ids :
      (xs : List SummaryRow)
      → (docs : List DocumentSummary) × (summaries db s xs ≡ ok docs)
        × (map (λ d. d.id) docs ≡ map (λ r. text_or_empty r.id) xs)
  unfolding summaries
  summaries-ids [] = ([], refl, refl)
  summaries-ids (x ∷ xs) =
      let (c, counted) = listing.counts (page_ids (x ∷ xs)) in
      (
        map (summary_of (counts_of c [])) (x ∷ xs),
        rw counted refl,
        map-ids (counts_of c []) (x ∷ xs),
      )

  map-drop :
      {A B : Type 0} (f : A → B) (n : ℕ) (xs : List A) → map f (drop n xs) ≡ drop n (map f xs)
  map-drop f zero xs = refl
  map-drop f (suc n) [] = refl
  map-drop f (suc n) (x ∷ xs) = map-drop f n xs

  list_page-IsPaged : IsPaged (λ d. d.id) (list_page db s) ids
  unfolding list_page list_documents validate_list page_of
  list_page-IsPaged = record {
    page = λ limit offset positive few near.
        let nonzero : (limit == 0) ≡ false = ground arith in
        let under : ltb 10000 limit ≡ false = ground arith in
        let before : ltb 1000000 offset ≡ false = ground arith in
        let (docs, listed, seen) = summaries-ids (take limit (drop offset rows)) in
        (
          docs,
          rw nonzero (rw under (rw before (rw (listing.pages limit offset) listed))),
          seen ∙ map-take _ limit (drop offset rows) ∙ ap (take limit) (map-drop _ offset rows),
        );
  }

  -- A snapshot of at most a million documents is taken with the loop's fuel: it has the first documents
  -- of the listing, in its order, as many as are allowed, and tells exactly whether there are more.
  pub document_snapshot-first :
      (max : ℕ)
      → max ≤ 1000000
      → (docs : List DocumentSummary) × (document_snapshot db s max
          ≡ ok (docs, ltb max (length rows)))
        × (map (λ d. d.id) docs ≡ take max (map (λ r. text_or_empty r.id) rows))
  unfolding document_snapshot
  document_snapshot-first max small =
      let (docs, taken, seen) =
        snapshot_loop-IsFirst (λ d. d.id) (list_page db s) max ids list_page-IsPaged (max + 1) []
          ids small refl (omega arith) (omega arith) in
      (docs, taken ∙ ap (λ n. ok (docs, ltb max n)) (length-map _ rows), seen)

-- ===== src/Ingest/Embed.antt =====
-- `embed_batch` of crates/skb-core/src/ingest.rs: the texts are embedded in batches. `F` stands for an
-- embedding, a vector of `f32`.
use surreal_knowledge_base.Base.{
  ℕ, suc, zero, ◌≤◌, ◌<◌, ◌≡◌, refl, sym, Text, List, [], ◌∷◌, ◌++◌, map, length, take, drop, arith,
  length-take-le, append-take-drop, map_append,
}
use surreal_knowledge_base.Error.{SkbError, Outcome, ok, panic, out_of_fuel, ◌>>=◌}

length-drop_le {ℓ} : {A : Type ℓ} (n : ℕ) (xs : List A) → length (drop n xs) ≤ length xs
length-drop_le zero xs = omega arith
length-drop_le (suc n) [] = omega arith
length-drop_le (suc n) (x ∷ xs) = omega (arith, length-drop_le n xs)

shorter {ℓ} :
    {A : Type ℓ} (size : ℕ) {fuel : ℕ} (x : A) (xs : List A)
    → 0 < size
    → suc (length xs) ≤ suc fuel
    → length (drop size (x ∷ xs)) ≤ fuel
shorter zero x xs pos h = ground arith
shorter (suc n) x xs pos h = omega (arith, length-drop_le n xs)

module _ {F : Type 0} (embed : List Text → Outcome SkbError (List F)) where
  -- The loop over `texts.chunks(batch_size)`; each round takes at least one text.
  unfoldable pub embed_chunks : ℕ → ℕ → List Text → Outcome SkbError (List F)
  embed_chunks fuel size [] = ok []
  embed_chunks zero size (t ∷ texts) = out_of_fuel
  embed_chunks (suc fuel) size (t ∷ texts) = do
    first ← embed (take size (t ∷ texts))
    rest ← embed_chunks fuel size (drop size (t ∷ texts))
    ok (first ++ rest)

  -- `embed_batch`; `chunks` panics at a size of 0.
  unfoldable pub embed_batch : List Text → ℕ → Outcome SkbError (List F)
  unfolding embed_chunks
  embed_batch texts zero = panic
  embed_batch texts (suc size) = embed_chunks (length texts) (suc size) texts

  -- An embedder that gives every text of a short batch its own vector.
  pub record IsPointwise (size : ℕ) (vector : Text → F) : Type 0 where
    pub batch : (texts : List Text) → length texts ≤ size → embed texts ≡ ok (map vector texts)

  module _ (size : ℕ) (vector : Text → F) (pointwise : IsPointwise size vector) where
    embed_chunks-map :
        (fuel : ℕ) (texts : List Text)
        → 0 < size
        → length texts ≤ fuel
        → embed_chunks fuel size texts ≡ ok (map vector texts)
    unfolding embed_chunks
    embed_chunks-map fuel [] pos h = refl
    embed_chunks-map zero (t ∷ texts) pos h = ground arith
    embed_chunks-map (suc fuel) (t ∷ texts) pos h =
        rw
          (
            pointwise.batch (take size (t ∷ texts)) (length-take-le size (t ∷ texts)),
            embed_chunks-map fuel (drop size (t ∷ texts)) pos (shorter size t texts pos h),
            sym (map_append vector (take size (t ∷ texts)) (drop size (t ∷ texts))),
            append-take-drop size (t ∷ texts),
          )
          refl

-- Whatever the size of the batches, as long as it is not 0, every text is embedded once, in order: the
-- result is what the embedder gives for each text on its own.
pub embed_batch-map :
    {F : Type 0} (embed : List Text → Outcome SkbError (List F)) (size : ℕ) (vector : Text → F)
    → 0 < size
    → IsPointwise embed size vector
    → (texts : List Text) → embed_batch embed texts size ≡ ok (map vector texts)
unfolding embed_batch
embed_batch-map embed zero vector pos p texts = ground arith
embed_batch-map embed (suc size) vector pos p texts =
    embed_chunks-map embed (suc size) vector p (length texts) texts pos (omega arith)

-- ===== src/Tokenize/Chunk/Cover.antt =====
-- What the chunks of a text are (crates/skb-core/src/tokenize.rs): windows of at most `max_tokens`
-- tokens that cover all tokens, each beginning within the allowed overlap of the one before.
use surreal_knowledge_base.Base.{
  ℕ, zero, suc, ◌+◌, ◌≤◌, ◌<◌, ◌≡◌, sym, subst, ◌∙◌, inl, inr, Text, List, [], ◌∷◌, ◌++◌, ltb, leb,
  Bool-cases, length, length-append, append_assoc, append-nil, arith, tests, ◌==◌, ==_iff, ltb→lt,
  ltb→lt,
}
use surreal_knowledge_base.Error.{SkbError, Outcome, ok, >>=-eq-ok}
use surreal_knowledge_base.Tokenize.Headings.{heading_starts}
use surreal_knowledge_base.Tokenize.Chunk.{
  Encoding, Chunk, usize_mod, Move, skip_to, emit, make_chunk, next_start, round, chunk_loop, chunk,
  chunk_encoded,
}
use surreal_knowledge_base.Tokenize.Chunk.Windows.{Fits, move_at-Fits}

-- Windows of tokens, from the first token that no earlier window holds: no gap, progress in each,
-- the size and the overlap bounded, and no token left at the end.
abbrev pub IsCover : ℕ → ℕ → ℕ → ℕ → List (ℕ × ℕ) → Type 0
IsCover count max_tokens overlap covered [] = covered ≡ count
IsCover count max_tokens overlap covered ((start, end) ∷ ws) =
    (start ≤ covered)
    × (covered ≤ start + overlap)
    × (covered < end)
    × (end ≤ count)
    × (end ≤ start + max_tokens)
    × IsCover count max_tokens overlap end ws

-- Each chunk is the one that the code makes of its window, numbered in order.
abbrev pub AreBuilt : Text → Encoding → List ℕ → ℕ → List (ℕ × ℕ) → List Chunk → Type 0
AreBuilt text e headings i [] [] = Unit
AreBuilt text e headings i [] (_ ∷ _) = ⊥
AreBuilt text e headings i (_ ∷ _) [] = ⊥
AreBuilt text e headings i ((start, end) ∷ ws) (c ∷ cs) =
    (make_chunk text e.offsets headings start end i ≡ ok c) × AreBuilt text e headings (suc i) ws cs

module _ (text : Text) (e : Encoding) (headings : List ℕ) (max_tokens overlap : ℕ)
    (some_tokens : 0 < max_tokens) (no_wrap : length e.ids + max_tokens < usize_mod) where
  -- The chunks that a run adds to those that it is given.
  abbrev Adds : ℕ → List Chunk → List Chunk → Type 0
  Adds covered chunks cs =
      (ws : List (ℕ × ℕ)) × (new : List Chunk) × (cs ≡ chunks ++ new)
      × AreBuilt text e headings (length chunks) ws new
      × IsCover (length e.ids) max_tokens overlap covered ws

  abbrev Sound : (ℕ → ℕ → List Chunk → Outcome SkbError (List Chunk)) → Type 0
  Sound rest =
      (start covered : ℕ) (chunks cs : List Chunk)
      → start ≤ covered
      → covered ≤ start + overlap
      → covered ≤ length e.ids
      → rest start covered chunks ≡ ok cs
      → Adds covered chunks cs

  -- A chunk in front of what the rest of the loop adds.
  Adds-cons :
      (start end covered : ℕ) (c : Chunk) (chunks cs : List Chunk)
      → start ≤ covered
      → covered ≤ start + overlap
      → Fits (length e.ids) max_tokens start covered (emit end)
      → make_chunk text e.offsets headings start end (length chunks) ≡ ok c
      → Adds end (chunks ++ c ∷ []) cs
      → Adds covered chunks cs
  Adds-cons start end covered c chunks cs a b fits made (ws, new, whole, built, cover) = (
    (start, end) ∷ ws,
    c ∷ new,
    whole ∙ append_assoc chunks (c ∷ []) new,
    (
      made,
      subst (λ i. AreBuilt text e headings i ws new) (omega (arith, length-append chunks (c ∷ [])))
          built,
    ),
    (a, b, fits.1, fits.2, fits.3, cover),
  )

  round-Adds :
      (rest : ℕ → ℕ → List Chunk → Outcome SkbError (List Chunk))
      → Sound rest
      → (mv : Move) (start covered : ℕ) (chunks cs : List Chunk)
      → Fits (length e.ids) max_tokens start covered mv
      → start ≤ covered
      → covered ≤ start + overlap
      → covered ≤ length e.ids
      → round text e headings max_tokens overlap rest start covered chunks mv ≡ ok cs
      → Adds covered chunks cs
  unfolding round next_start
  round-Adds rest sound (skip_to s) start covered chunks cs fits a b d h =
      sound s covered chunks cs (omega arith) (omega arith) d h
  round-Adds rest sound (emit end) start covered chunks cs fits a b d h =
      let (c, made, next) =
        >>=-eq-ok (make_chunk text e.offsets headings start end (length chunks)) _ h in
      Adds-cons start end covered c chunks cs a b fits made
        (elim (Bool-cases (leb (length e.ids) end)) [
          | inl last ↦
              let same : chunks ++ c ∷ [] ≡ cs = ground arith in
              ([], [], sym same ∙ sym (append-nil _), tt, omega tests)
          | inr more ↦
              sound (next_start overlap start end) end (chunks ++ c ∷ []) cs (ground arith)
                (ground arith) (omega arith) (rw more at next)
        ])

  chunk_loop-Sound : (fuel : ℕ) → Sound (chunk_loop text e headings max_tokens overlap fuel)
  unfolding chunk_loop
  chunk_loop-Sound zero start covered chunks cs a b d h = cc
  chunk_loop-Sound (suc fuel) start covered chunks cs a b d h =
      elim (Bool-cases (ltb start (length e.ids))) [
        | inr over ↦
            let same : chunks ≡ cs = ground arith in
            ([], [], sym same ∙ sym (append-nil chunks), tt, omega tests)
        | inl more ↦
            round-Adds _ (chunk_loop-Sound fuel) _ start covered chunks cs
              (move_at-Fits text e headings max_tokens overlap start covered (ltb→lt _ _ more)
                some_tokens no_wrap)
              a b d (rw (more, chunk_loop) at h)
      ]

-- What a successful call returns, for the encoding of its text.
pub record IsChunked (text : Text) (e : Encoding) (max_tokens overlap : ℕ) (cs : List Chunk)
    : Type 0 where
  pub windows : List (ℕ × ℕ)
  pub built : AreBuilt text e (heading_starts text) 0 windows cs
  pub cover : IsCover (length e.ids) max_tokens overlap 0 windows

encoded-IsChunked :
    (text : Text) (e : Encoding) (max_tokens overlap : ℕ) (cs : List Chunk)
    → length e.ids + max_tokens < usize_mod
    → chunk_encoded text max_tokens overlap e ≡ ok cs
    → IsChunked text e max_tokens overlap cs
unfolding chunk_encoded
encoded-IsChunked text e max_tokens overlap cs no_wrap h = elim (Bool-cases (length e.ids == 0)) [
  | inl nothing ↦
      let same : [] ≡ cs = ground arith in
      let none_left = (==_iff (length e.ids) 0).0 nothing in
      subst (IsChunked text e max_tokens overlap) same
        (record { windows = []; built = tt; cover = sym none_left })
  | inr tokens ↦ elim (Bool-cases (max_tokens == 0)) [
    | inl zero_max ↦ absurd (ground arith)
    | inr some_max ↦
        let (ws, new, whole, built, cover) =
          chunk_loop-Sound text e (heading_starts text) max_tokens overlap (ground arith) no_wrap
            (suc (length e.ids)) 0 0 [] cs (omega arith) (omega arith) (omega arith)
            (ground arith) in
        subst (IsChunked text e max_tokens overlap) (sym whole)
          (record { windows = ws; built = built; cover = cover })
  ]
]

-- If the call succeeds, with a token limit that cannot wrap around the machine word, the chunks are
-- built from windows of the tokens in order, numbered from 0. A window has at least one token and
-- at most `max_tokens`; it ends behind the previous one and starts at most `overlap` tokens before
-- that one's end; no token is left out.
pub chunk-IsChunked :
    (encode : Text → Outcome Text Encoding) (text : Text) (e : Encoding) (max_tokens overlap : ℕ)
    (cs : List Chunk)
    → encode text ≡ ok e
    → length e.ids + max_tokens < usize_mod
    → chunk encode text max_tokens overlap ≡ ok cs
    → IsChunked text e max_tokens overlap cs
unfolding chunk
chunk-IsChunked encode text e max_tokens overlap cs encoded no_wrap h =
    encoded-IsChunked text e max_tokens overlap cs no_wrap (rw encoded at h)

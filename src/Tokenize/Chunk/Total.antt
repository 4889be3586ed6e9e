-- ===== src/Tokenize/Chunk/Total.antt =====
-- The chunking loop of crates/skb-core/src/tokenize.rs ends, with no panic, on every text whose
-- token ranges lie on its character boundaries in order.
use surreal_knowledge_base.Base.{
  ℕ, zero, suc, ◌+◌, ◌-◌, ◌≤◌, ◌<◌, ◌≡◌, refl, ap, subst, inl, inr, min, Text, Option, none, some,
  List, [], ◌∷◌, ◌++◌, Bool, false, ltb, leb, Bool-cases, Option-cases, get_elem?, length, arith,
  ◌==◌, ltb→lt, byte_len, All,
}
use mathlib.Core.Option
use surreal_knowledge_base.Base.Bytes.{IsBoundary, IsBoundary-le, slice-IsBoundary}
use surreal_knowledge_base.Error.{SkbError, Outcome, ok}
use surreal_knowledge_base.Tokenize.Headings.{
  heading_starts, heading_at, heading_text, heading_before, partition_point,
}
use surreal_knowledge_base.Tokenize.Headings.Positions.{IsHeadingStart, heading_starts_positions}
use surreal_knowledge_base.Tokenize.Chunk.{
  Encoding, Chunk, usize_mod, Move, skip_to, emit, make_chunk, byte_range, next_start, round,
  chunk_loop, chunk, chunk_encoded,
}
use surreal_knowledge_base.Tokenize.Chunk.Windows.{Fits, move_at-Fits}

-- What the tokenizer documents of the ranges it reports: one for each id, between characters of the
-- text, and in order.
pub record IsAligned (text : Text) (e : Encoding) : Type 0 where
  pub ranged : length e.offsets ≡ length e.ids
  pub starts : (i : ℕ) (o : ℕ × ℕ) → get_elem? e.offsets i ≡ some o → IsBoundary text o.0
  pub ends : (i : ℕ) (o : ℕ × ℕ) → get_elem? e.offsets i ≡ some o → IsBoundary text o.1
  pub ordered :
      (i j : ℕ) (o p : ℕ × ℕ)
      → i ≤ j
      → get_elem? e.offsets i ≡ some o
      → get_elem? e.offsets j ≡ some p
      → o.0 ≤ p.1

get_elem?-lt {ℓ} :
    {A : Type ℓ} (xs : List A) (i : ℕ) → i < length xs → (a : A) × (get_elem? xs i ≡ some a)
get_elem?-lt [] i h = elim h [ ]
get_elem?-lt (x ∷ xs) zero h = (x, refl)
get_elem?-lt (x ∷ xs) (suc i) h = get_elem?-lt xs i (omega arith)

partition_point-le : (p : ℕ → Bool) (xs : List ℕ) → partition_point p xs ≤ length xs
unfolding partition_point
partition_point-le p [] = omega arith
partition_point-le p (x ∷ xs) = ground (arith, partition_point-le p xs)

All-get : (P : ℕ → Type 0) (xs : List ℕ) (i h : ℕ) → All P xs → get_elem? xs i ≡ some h → P h
All-get P [] i h a e = cc
All-get P (x ∷ xs) zero h a e = subst P (ground arith) a.0
All-get P (x ∷ xs) (suc i) h a e = All-get P xs i h a.1 e

-- A result that is there: no panic.
abbrev Defined {ℓ} : {A : Type ℓ} → Option A → Type ℓ
Defined {A} o = (a : A) × (o ≡ some a)

module _ (text : Text) (headings : List ℕ) (starts : All (IsHeadingStart text) headings) where
  heading_text-Defined : (i h : ℕ) → get_elem? headings i ≡ some h → Defined (heading_text text h)
  unfolding heading_text
  heading_text-Defined i h e =
      let start = All-get (IsHeadingStart text) headings i h starts e in
      (_, ap (Option.map _) start.boundary)

  heading_before-Defined : (i : ℕ) → i ≤ length headings → Defined (heading_before text headings i)
  unfolding heading_before
  heading_before-Defined zero h = (none, refl)
  heading_before-Defined (suc i) h =
      let (x, e) = get_elem?-lt headings i h in
      let (t, d) = heading_text-Defined i x e in (t, rw (e, heading_before) d)

  heading_at-Defined : (start end : ℕ) → Defined (heading_at text headings start end)
  unfolding heading_at
  heading_at-Defined start end =
      let n = partition_point (λ h. ltb h start) headings in
      let before = heading_before-Defined n (partition_point-le _ headings) in
      elim (Option-cases (get_elem? headings n)) [
        | inl e ↦ (before.0, rw (e, heading_at) before.1)
        | inr (x, e) ↦ elim (Bool-cases (ltb x end)) [
          | inl inside ↦
              let (t, d) = heading_text-Defined n x e in (t, rw (e, heading_at) (rw inside d))
          | inr outside ↦ (before.0, rw (e, heading_at) (rw outside before.1))
        ]
      ]

module _ (text : Text) (e : Encoding) (aligned : IsAligned text e) where
  token_range : (i : ℕ) → i < length e.ids → Defined (get_elem? e.offsets i)
  token_range i h = get_elem?-lt e.offsets i (omega (arith, aligned.ranged))

  make_chunk-ok :
      (start end idx : ℕ)
      → start < end
      → end ≤ length e.ids
      → (c : Chunk) × (make_chunk text e.offsets (heading_starts text) start end idx ≡ ok c)
  unfolding make_chunk
  make_chunk-ok start end idx a b =
      let (o, p) = token_range start (omega arith) in
      let (l, q) = token_range (min end (length e.offsets) - 1) (omega (arith, aligned.ranged)) in
      let ranged : byte_range e.offsets (byte_len text) start end ≡ (o.0, l.1) =
        unfold byte_range in rw (p, byte_range) (rw (q, byte_range)) in
      let last = aligned.ends _ l q in
      let within : min l.1 (byte_len text) ≡ l.1 = omega (arith, IsBoundary-le text l.1 last) in
      let (u, cut) =
        slice-IsBoundary text o.0 l.1 (aligned.ordered _ _ o l (omega (arith, aligned.ranged)) p q)
          (aligned.starts _ o p) last in
      let (hd, at) =
        heading_at-Defined text (heading_starts text) (heading_starts_positions text).0 o.0 l.1 in
      (
        record { content = u; token_count = end - start; idx = idx; heading = hd },
        rw ranged (rw within (rw cut (rw at))),
      )

module _ (text : Text) (e : Encoding) (aligned : IsAligned text e) (max_tokens overlap : ℕ)
    (some_tokens : 0 < max_tokens) (no_wrap : length e.ids + max_tokens < usize_mod) where
  abbrev Returns : Outcome SkbError (List Chunk) → Type 0
  Returns r = (cs : List Chunk) × (r ≡ ok cs)

  round-Returns :
      (rest : ℕ → ℕ → List Chunk → Outcome SkbError (List Chunk))
      → (mv : Move) (start covered : ℕ) (chunks : List Chunk) → start < length e.ids
      → Fits (length e.ids) max_tokens start covered mv
      → ((s c : ℕ) (cs : List Chunk) → start < s → Returns (rest s c cs))
      → Returns (round text e (heading_starts text) max_tokens overlap rest start covered chunks mv)
  unfolding round next_start
  round-Returns rest (skip_to s) start covered chunks lt fits later = later s covered chunks fits.0
  round-Returns rest (emit end) start covered chunks lt fits later =
      let (c, made) = make_chunk-ok text e aligned start end (length chunks) fits.0 fits.2 in
      let (cs, onward) =
        later (next_start overlap start end) end (chunks ++ c ∷ []) (ground arith) in
      rw made (elim (Bool-cases (leb (length e.ids) end)) [
        | inl last ↦ (chunks ++ c ∷ [], rw last)
        | inr more ↦ (cs, rw more onward)
      ])

  chunk_loop-Returns :
      (fuel start covered : ℕ) (chunks : List Chunk)
      → length e.ids - start < fuel
      → Returns
          (chunk_loop text e (heading_starts text) max_tokens overlap fuel start covered chunks)
  unfolding chunk_loop
  chunk_loop-Returns zero start covered chunks h = absurd (omega arith)
  chunk_loop-Returns (suc fuel) start covered chunks h =
      elim (Bool-cases (ltb start (length e.ids))) [
        | inr over ↦ (chunks, rw (over, chunk_loop))
        | inl more ↦
            let lt = ltb→lt _ _ more in
            let fits =
              move_at-Fits text e (heading_starts text) max_tokens overlap start covered lt
                some_tokens no_wrap in
            let (cs, r) =
              round-Returns (chunk_loop text e (heading_starts text) max_tokens overlap fuel) _
                start covered chunks lt fits
                (λ s c new later. chunk_loop-Returns fuel s c new (omega arith)) in
            (cs, rw (more, chunk_loop) r)
      ]

-- Chunking a text ends with a result, with no panic and within its fuel, if the token ranges lie on
-- the text's character boundaries in order, a chunk may hold at least one token, and the token
-- limit cannot wrap around the machine word.
pub chunk_total :
    (encode : Text → Outcome Text Encoding) (text : Text) (e : Encoding) (max_tokens overlap : ℕ)
    → encode text ≡ ok e
    → IsAligned text e
    → 0 < max_tokens
    → length e.ids + max_tokens < usize_mod
    → (cs : List Chunk) × (chunk encode text max_tokens overlap ≡ ok cs)
unfolding chunk
chunk_total encode text e max_tokens overlap encoded aligned some_tokens no_wrap =
    elim (Bool-cases (length e.ids == 0)) [
      | inl nothing ↦ ([], rw encoded (rw (nothing, chunk_encoded)))
      | inr tokens ↦
          let (cs, r) =
            chunk_loop-Returns text e aligned max_tokens overlap some_tokens no_wrap
              (suc (length e.ids)) 0 0 [] (omega arith) in
          let limited : max_tokens == 0 ≡ false = ground arith in
          (cs, rw encoded (rw (tokens, chunk_encoded) (rw limited r)))
    ]

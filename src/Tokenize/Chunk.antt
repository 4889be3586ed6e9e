-- ===== src/Tokenize/Chunk.antt =====
-- `TokenizersImpl::chunk` of crates/skb-core/src/tokenize.rs. The tokenizer is a parameter: what
-- `encode` returns is an `Encoding`, the token ids and the byte range of each token.
pub mod Windows
pub mod Cover
pub mod Total
use surreal_knowledge_base.Base.{
  ℕ, zero, suc, ◌+◌, ◌-◌, ◌%◌, ◌^◌, min, max, Text, lit, byte_len, slice, Option, none, some, List,
  [], ◌∷◌, ◌++◌, Bool, true, false, ltb, leb, ◌==◌, if◌then◌else◌, get_elem?, length,
}
use surreal_knowledge_base.Error.{
  ErrorCode, SkbError, skb_error, Outcome, ok, err, panic, out_of_fuel, ◌>>=◌, or_panic, map_err,
}
use surreal_knowledge_base.Tokenize.Headings.{heading_starts, partition_point, heading_at}

pub record Encoding : Type 0 where
  pub ids : List ℕ
  pub offsets : List (ℕ × ℕ)

pub record Chunk : Type 0 where
  pub content : Text
  pub token_count : ℕ
  pub idx : ℕ
  pub heading : Option Text

abbrev pub usize_mod : ℕ
usize_mod = 2 ^ 64

-- The last byte of a token, `offsets.get(i).map(|o| o.1).unwrap_or(0)`.
unfoldable pub token_end : List (ℕ × ℕ) → ℕ → ℕ
token_end offsets i = elim (get_elem? offsets i) [ none ↦ 0 | some o ↦ o.1 ]

-- `(i..i + n).find(test)`
unfoldable pub find_from : (ℕ → Bool) → ℕ → ℕ → Option ℕ
find_from test zero i = none
find_from test (suc n) i = let rest = find_from test n (i + 1) in if test i then some i else rest

-- The end of the window of at most `max_tokens` tokens.
unfoldable pub window_end : ℕ → ℕ → ℕ → ℕ
window_end count max_tokens start = min ((start + max_tokens) % usize_mod) count

abbrev value_or : ℕ → Option ℕ → ℕ
value_or w none = w
value_or w (some i) = i

-- The end of the window, or the first token in it that ends behind the given heading.
break_before : List (ℕ × ℕ) → ℕ → ℕ → Option ℕ → ℕ
break_before offsets start w none = w
break_before offsets start w (some heading_off) =
    value_or w
      (find_from (λ i. ltb heading_off (token_end offsets i)) (w - (start + 1)) (start + 1))

unfoldable pub break_end : List (ℕ × ℕ) → List ℕ → ℕ → ℕ → ℕ
unfolding break_before
break_end offsets headings start w =
    let first_heading = partition_point (λ h. leb h (token_end offsets start)) headings in
    break_before offsets start w (get_elem? headings first_heading)

-- What one round of the loop decides: go on from another token, or emit a chunk up to `end`.
pub data Move : Type 0 where
  skip_to : ℕ → Move
  emit : ℕ → Move

unfoldable pub decide_move : ℕ → ℕ → ℕ → ℕ → Move
decide_move start prev_end w end =
    if leb end prev_end
    then (if ltb prev_end w then emit w else skip_to (max end (start + 1)))
    else emit end

-- The byte range of a chunk's tokens; the whole text where the tokenizer gave no range.
unfoldable pub byte_range : List (ℕ × ℕ) → ℕ → ℕ → ℕ → ℕ × ℕ
byte_range offsets len start end = elim (get_elem? offsets start) [
  | none ↦ (0, len)
  | some first ↦ elim (get_elem? offsets (min end (length offsets) - 1)) [
    | none ↦ (0, len)
    | some last ↦ (first.0, last.1)
  ]
]

-- The chunk that a round pushes.
unfoldable pub make_chunk : Text → List (ℕ × ℕ) → List ℕ → ℕ → ℕ → ℕ → Outcome SkbError Chunk
unfolding byte_range
make_chunk text offsets headings start end idx = do
  let (from, to) = byte_range offsets (byte_len text) start end
  content ← or_panic (slice from (min to (byte_len text)) text)
  heading ← or_panic (heading_at text headings from to)
  ok (record { content = content; token_count = end - start; idx = idx; heading = heading })

-- Where the next chunk starts.
unfoldable pub next_start : ℕ → ℕ → ℕ → ℕ
next_start overlap start end =
    let size = end - start in if leb size overlap then end else end - overlap

module _ (text : Text) (e : Encoding) (headings : List ℕ) (max_tokens overlap : ℕ) where
  unfoldable pub move_at : ℕ → ℕ → Move
  unfolding window_end break_end decide_move
  move_at start prev_end =
      let w = window_end (length e.ids) max_tokens start in
      decide_move start prev_end w (break_end e.offsets headings start w)

  -- What a round does with its decision; `rest` is the loop from the next round on.
  unfoldable pub round :
      (ℕ → ℕ → List Chunk → Outcome SkbError (List Chunk))
      → ℕ
      → ℕ
      → List Chunk
      → Move
      → Outcome SkbError (List Chunk)
  round rest start prev_end chunks (skip_to s) = rest s prev_end chunks
  round rest start prev_end chunks (emit end) = do
    c ← make_chunk text e.offsets headings start end (length chunks)
    let onward = rest (next_start overlap start end) end (chunks ++ c ∷ [])
    if leb (length e.ids) end then ok (chunks ++ c ∷ []) else onward

  -- `while start < ids.len()`, on fuel.
  unfoldable pub chunk_loop : ℕ → ℕ → ℕ → List Chunk → Outcome SkbError (List Chunk)
  unfolding round
  chunk_loop zero start prev_end chunks = out_of_fuel
  chunk_loop (suc fuel) start prev_end chunks = elim (ltb start (length e.ids)) [
    | false ↦ ok chunks
    | true ↦ round (chunk_loop fuel) start prev_end chunks (move_at start prev_end)
  ]

abbrev pub encode_failed : Text → SkbError
encode_failed m = skb_error ErrorCode.tokenize (lit "chunk encode: " ++ m)

unfoldable pub chunk_encoded : Text → ℕ → ℕ → Encoding → Outcome SkbError (List Chunk)
chunk_encoded text max_tokens overlap e =
    let loop =
      chunk_loop text e (heading_starts text) max_tokens overlap (suc (length e.ids)) 0 0 [] in
    if length e.ids == 0
    then ok []
    else if max_tokens == 0
    then err (skb_error ErrorCode.validation (lit "max_tokens must be at least 1"))
    else loop

-- `TokenizersImpl::chunk`; the fuel is one round more than there are tokens.
unfoldable pub chunk : (Text → Outcome Text Encoding) → Text → ℕ → ℕ → Outcome SkbError (List Chunk)
unfolding chunk_encoded
chunk encode text max_tokens overlap = do
  e ← map_err encode_failed (encode text)
  chunk_encoded text max_tokens overlap e

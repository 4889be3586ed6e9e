-- ===== src/Tests/Tokenize.antt =====
-- Headings and chunks of small texts (crates/skb-core/src/tokenize.rs).
use mathlib.Core.Option.{some-injective}
use surreal_knowledge_base.Base.{
  subst, trim, ℕ, zero, suc, ◌≤◌, ◌≡◌, refl, Text, lit, List, [], ◌∷◌, none, some, arith, get_elem?,
  All, byte_len, drop_bytes, slice, trim_start, is_whitespace, starts_with, split,
}
use surreal_knowledge_base.Base.Bytes.{IsBoundary}
use surreal_knowledge_base.Error.{Outcome, ok}
use surreal_knowledge_base.Tokenize.Headings.{
  heading_starts, is_heading_line, partition_point, heading_at, heading_text,
}
use surreal_knowledge_base.Tokenize.Headings.Lines.{
  line_headings, is_newline, heading_starts-eq-line_headings,
}
use surreal_knowledge_base.Tokenize.Chunk.{
  Encoding, Chunk, chunk, chunk_loop, move_at, token_end, make_chunk, next_start,
}
use surreal_knowledge_base.Tokenize.Chunk.Cover.{IsChunked, chunk-IsChunked}
use surreal_knowledge_base.Tokenize.Chunk.Total.{IsAligned, chunk_total}

-- Headings inside a fence are not headings.
abbrev fenced : Text
fenced = lit "# Real\n```\n# Fake\n~~~\nstill inside\n```\n## Real2\n~~~\n# Fake2\n~~~\n"

headings_test : heading_starts fenced ≡ 0 ∷ 39 ∷ []
unfolding heading_starts is_heading_line trim_start is_whitespace starts_with lit
headings_test = refl

heading_starts-eq-line_headings_example :
    heading_starts fenced ≡ line_headings 0 none (split is_newline fenced)
heading_starts-eq-line_headings_example = heading_starts-eq-line_headings fenced

-- Two headings, each one token.
abbrev two_headings : Text
two_headings = lit "# a\n# b"

abbrev two_tokens : Encoding
two_tokens = record { ids = 11 ∷ 12 ∷ []; offsets = (0, 4) ∷ (4, 7) ∷ [] }

abbrev encode_two : Text → Outcome Text Encoding
encode_two text = ok two_tokens

abbrev two_chunks : List Chunk
two_chunks =
    record { content = lit "# a\n"; token_count = 1; idx = 0; heading = some (lit "a") }
    ∷ record { content = lit "# b"; token_count = 1; idx = 1; heading = some (lit "b") }
    ∷ []

chunk_test : chunk encode_two two_headings 1 0 ≡ ok two_chunks
unfolding chunk chunk_loop move_at heading_starts starts_with trim_start is_whitespace
    is_heading_line partition_point token_end make_chunk slice byte_len heading_at heading_text
    next_start trim lit
chunk_test = refl

at_element :
    {A : Type 0} (P : A → Type 0) (xs : List A) (i : ℕ) (x : A)
    → All P xs
    → get_elem? xs i ≡ some x
    → P x
at_element P [] i x h e = absurd (cc)
at_element P (y ∷ xs) zero x (p, h) e = subst P (some-injective y x e) p
at_element P (y ∷ xs) (suc i) x (p, h) e = at_element P xs i x h e

IsBoundary-0 : IsBoundary two_headings 0
unfolding lit drop_bytes
IsBoundary-0 = record { rest = two_headings; found = refl }

IsBoundary-4 : IsBoundary two_headings 4
unfolding lit drop_bytes
IsBoundary-4 = record { rest = lit "# b"; found = refl }

IsBoundary-7 : IsBoundary two_headings 7
unfolding lit drop_bytes
IsBoundary-7 = record { rest = []; found = refl }

two_tokens-IsAligned : IsAligned two_headings two_tokens
two_tokens-IsAligned = record {
  ranged = refl;
  starts = λ i o e.
      at_element (λ o. IsBoundary two_headings o.0) two_tokens.offsets i o
        (IsBoundary-0, (IsBoundary-4, tt)) e;
  ends = λ i o e.
      at_element (λ o. IsBoundary two_headings o.1) two_tokens.offsets i o
        (IsBoundary-4, (IsBoundary-7, tt)) e;
  ordered = λ i j o p le e f. omega (
    arith,
    at_element (λ o. o.0 ≤ 4) two_tokens.offsets i o (omega arith, (omega arith, tt)) e,
    at_element (λ o. 4 ≤ o.1) two_tokens.offsets j p (omega arith, (omega arith, tt)) f,
  );
}

chunk_total_example : (cs : List Chunk) × (chunk encode_two two_headings 1 0 ≡ ok cs)
chunk_total_example =
    chunk_total encode_two two_headings two_tokens 1 0 refl two_tokens-IsAligned (omega arith)
      (omega arith)

chunk-IsChunked_example : IsChunked two_headings two_tokens 1 0 two_chunks
chunk-IsChunked_example =
    chunk-IsChunked encode_two two_headings two_tokens 1 0 two_chunks refl (omega arith) chunk_test

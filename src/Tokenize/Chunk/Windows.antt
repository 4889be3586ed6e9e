-- ===== src/Tokenize/Chunk/Windows.antt =====
-- The token windows that the chunking loop of crates/skb-core/src/tokenize.rs emits.
use surreal_knowledge_base.Base.{
  ℕ, zero, suc, ◌+◌, ◌-◌, ◌≤◌, ◌<◌, ◌≡◌, refl, inl, inr, Text, Option, none, some, List, Bool, ltb,
  leb, Bool-cases, length, arith, tests,
}
use surreal_knowledge_base.Tokenize.Chunk.{
  Encoding, usize_mod, find_from, window_end, break_end, Move, skip_to, emit, decide_move, move_at,
  value_or, break_before,
}

find_from_bounds :
    (test : ℕ → Bool) (n i r : ℕ) → find_from test n i ≡ some r → (i ≤ r) × (r < i + n)
unfolding find_from
find_from_bounds test zero i r e = cc
find_from_bounds test (suc n) i r e = ground (arith, find_from_bounds test n (i + 1) r)

abbrev Between : ℕ → ℕ → ℕ → Type 0
Between start w b = (start < b) × (b ≤ w)

value_or_bounds :
    (test : ℕ → Bool) (start w : ℕ)
    → start < w
    → (o : Option ℕ) → find_from test (w - (start + 1)) (start + 1) ≡ o
    → Between start w (value_or w o)
value_or_bounds test start w h none e = omega arith
value_or_bounds test start w h (some i) e =
    omega (arith, find_from_bounds test (w - (start + 1)) (start + 1) i e)

break_before_bounds :
    (offsets : List (ℕ × ℕ)) (start w : ℕ)
    → start < w
    → (o : Option ℕ) → Between start w (break_before offsets start w o)
unfolding break_before
break_before_bounds offsets start w h none = omega arith
break_before_bounds offsets start w h (some off) = value_or_bounds _ start w h _ refl

break_end_bounds :
    (offsets : List (ℕ × ℕ)) (headings : List ℕ) (start w : ℕ)
    → start < w
    → Between start w (break_end offsets headings start w)
unfolding break_end
break_end_bounds offsets headings start w h = break_before_bounds offsets start w h _

window_end_bounds :
    (count max_tokens start : ℕ)
    → start < count
    → 0 < max_tokens
    → count + max_tokens < usize_mod
    → (start < window_end count max_tokens start)
      × (window_end count max_tokens start ≤ count)
      × (window_end count max_tokens start ≤ start + max_tokens)
unfolding window_end
window_end_bounds count max_tokens start h k b = omega arith

-- What a round may do, from `start` with the tokens below `covered` in chunks already.
abbrev pub Fits : ℕ → ℕ → ℕ → ℕ → Move → Type 0
Fits count max_tokens start covered (skip_to s) = (start < s) × (s ≤ covered)
Fits count max_tokens start covered (emit end) =
    (start < end) × (covered < end) × (end ≤ count) × (end ≤ start + max_tokens)

decide_move-Fits :
    (count max_tokens start covered w end : ℕ)
    → w ≤ count
    → w ≤ start + max_tokens
    → start < end
    → end ≤ w
    → Fits count max_tokens start covered (decide_move start covered w end)
unfolding decide_move
decide_move-Fits count max_tokens start covered w end a b c d =
    elim (Bool-cases (leb end covered)) [
      | inl stuck ↦ elim (Bool-cases (ltb covered w)) [
        | inl full ↦ rw (stuck, full) (omega tests)
        | inr skipped ↦ rw (stuck, skipped) (omega tests)
      ]
      | inr onward ↦ rw onward (omega tests)
    ]

-- With at least one token to a chunk, a round moves forward and stays in range.
pub move_at-Fits :
    (text : Text) (e : Encoding) (headings : List ℕ) (max_tokens overlap start covered : ℕ)
    → start < length e.ids
    → 0 < max_tokens
    → length e.ids + max_tokens < usize_mod
    → Fits
        (length e.ids)
        max_tokens
        start
        covered
        (move_at text e headings max_tokens overlap start covered)
unfolding move_at
move_at-Fits text e headings max_tokens overlap start covered h k b =
    let (after, within, sized) = window_end_bounds (length e.ids) max_tokens start h k b in
    let w = window_end (length e.ids) max_tokens start in
    let (later, inside) = break_end_bounds e.offsets headings start w after in
    decide_move-Fits (length e.ids) max_tokens start covered w _ within sized later inside

-- ===== src/Tokenize/Headings.antt =====
-- `heading_starts`, `is_heading_line`, `heading_at` and `heading_text` of
-- crates/skb-core/src/tokenize.rs. A text is walked by characters with the byte offset beside it;
-- a newline is one byte and no part of another character, so the lines are those of the byte loop.

pub mod Lines
pub mod Positions
use surreal_knowledge_base.Base.{
  ℕ, zero, suc, ◌+◌, ◌-◌, Text, lit, len_utf8, trim_start, trim, drop_while, starts_with, is_empty,
  drop_bytes, Option, none, some, List, [], ◌∷◌, ◌++◌, Bool, true, false, ◌&&◌, ◌||◌, ltb, leb,
  ◌==◌, if◌then◌else◌, not, get_elem?, length, ◌≡◌, refl, is_whitespace,
}
use mathlib.Core.Option

-- The hashes at the head of a line, counted up to the given bound.
count_hashes : ℕ → Text → ℕ
count_hashes zero s = 0
count_hashes (suc n) [] = 0
count_hashes (suc n) (c ∷ s) = let rest = count_hashes n s in if c == b'#' then suc rest else 0

is_none : Option Text → Bool
is_none none = true
is_none (some _) = false

is_space : Option ℕ → Bool
is_space none = false
is_space (some c) = c == b' '

-- A byte below 0x80 is a character, so `as_bytes().get(hashes)` is the character behind the hashes.
unfoldable pub is_heading_line : Text → Bool
unfolding count_hashes is_space
is_heading_line line =
    let hashes = count_hashes 7 line in
    leb 1 hashes && leb hashes 6 && is_space (get_elem? line hashes)

pub record Scan : Type 0 where
  pub out : List ℕ
  -- The byte offset reached, that of the current line, and the line's text so far.
  pub offset : ℕ
  pub line_start : ℕ
  pub line : Text
  pub fence_marker : Option Text

unfoldable pub start_scan : Scan
start_scan = record { out = []; offset = 0; line_start = 0; line = []; fence_marker = none }

-- What the end of a line does to the open fence and to the headings found.
end_line : Scan → Option Text → Text → Scan
end_line s (some open_marker) trimmed =
    if starts_with open_marker trimmed then record s { fence_marker = none } else s
end_line s none trimmed =
    if starts_with (lit "```") trimmed
    then record s { fence_marker = some (lit "```") }
    else if starts_with (lit "~~~") trimmed
    then record s { fence_marker = some (lit "~~~") }
    else if is_heading_line trimmed
    then record s { out = s.out ++ s.line_start ∷ [] }
    else s

next_line : Scan → Scan
next_line s = record s { offset = s.offset + 1; line_start = s.offset + 1; line = [] }

-- One character of the loop.
unfoldable pub scan_char : Scan → ℕ → Scan
unfolding end_line next_line
scan_char s c =
    if c == b'\n'
    then next_line (end_line s s.fence_marker (trim_start s.line))
    else record s { offset = s.offset + len_utf8 c; line = s.line ++ c ∷ [] }

unfoldable pub scan : Scan → Text → Scan
unfolding scan_char
scan s [] = s
scan s (c ∷ text) = scan (scan_char s c) text

-- The last line, where the text does not end in a newline.
unfoldable pub last_line : Scan → List ℕ
unfolding is_none
last_line s =
    let trimmed = trim_start s.line in
    if ltb s.line_start s.offset
      && not (starts_with (lit "```") trimmed || starts_with (lit "~~~") trimmed)
      && is_none s.fence_marker
      && is_heading_line trimmed
    then s.out ++ s.line_start ∷ []
    else s.out

unfoldable pub heading_starts : Text → List ℕ
unfolding scan last_line start_scan is_none
heading_starts text = last_line (scan start_scan text)

-- `slice::partition_point` on a slice that the test partitions: the elements before the first
-- that fails it.
unfoldable pub partition_point : (ℕ → Bool) → List ℕ → ℕ
partition_point p [] = 0
partition_point p (x ∷ xs) = let rest = partition_point p xs in if p x then suc rest else 0

-- The line that begins a text.
unfoldable pub first_line : Text → Text
first_line [] = []
first_line (c ∷ s) = let rest = first_line s in if c == b'\n' then [] else c ∷ rest

unfoldable pub shown_heading : Text → Option Text
shown_heading line =
    let trimmed = trim (drop_while (λ c. c == b'#') (trim_start line)) in
    if is_empty trimmed then none else some trimmed

-- `heading_text`; the outer `Option` is the panic of the slice.
unfoldable pub heading_text : Text → ℕ → Option (Option Text)
unfolding first_line shown_heading
heading_text text start =
    Option.map (λ rest. shown_heading (first_line rest)) (drop_bytes start text)

-- The heading at an index, where `start_idx - 1` is known to be in range.
unfoldable pub heading_before : Text → List ℕ → ℕ → Option (Option Text)
heading_before text headings zero = some none
heading_before text headings (suc i) = elim (get_elem? headings i) [
  | none ↦ none
  | some h ↦ heading_text text h
]

-- `heading_at`
unfoldable pub heading_at : Text → List ℕ → ℕ → ℕ → Option (Option Text)
unfolding heading_before
heading_at text headings start end =
    let start_idx = partition_point (λ h. ltb h start) headings in
    let before = heading_before text headings start_idx in
    elim (get_elem? headings start_idx) [
      | none ↦ before
      | some h ↦ if ltb h end then heading_text text h else before
    ]

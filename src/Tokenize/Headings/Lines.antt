-- ===== src/Tokenize/Headings/Lines.antt =====
-- `heading_starts` (crates/skb-core/src/tokenize.rs) against a description by lines, which knows
-- nothing of offsets into the scanned text.
use surreal_knowledge_base.Base.{
  ℕ, ◌+◌, ◌≡◌, refl, ap, ◌∙◌, inl, inr, Text, lit, byte_len, len_utf8, trim_start, starts_with,
  split, Option, none, some, List, [], ◌∷◌, ◌++◌, Bool, true, false, ◌==◌, if◌then◌else◌,
  Bool-cases, append_assoc, append-nil, arith,
}
use surreal_knowledge_base.Base.Chars.{cons_first, byte_len-append, len_utf8_pos}
use surreal_knowledge_base.Tokenize.Headings.{
  is_heading_line, Scan, start_scan, end_line, next_line, scan_char, scan, last_line,
  heading_starts,
}

-- The line that closes, opens or leaves alone the fence that is open before it.
abbrev pub fence_after : Option Text → Text → Option Text
fence_after (some m) trimmed = if starts_with m trimmed then none else some m
fence_after none trimmed =
    if starts_with (lit "```") trimmed
    then some (lit "```")
    else if starts_with (lit "~~~") trimmed
    then some (lit "~~~")
    else none

-- A line is a heading if no fence is open, it opens none, and it has the form of a heading.
abbrev pub is_heading_at : Option Text → Text → Bool
is_heading_at (some m) trimmed = false
is_heading_at none trimmed =
    if starts_with (lit "```") trimmed
    then false
    else if starts_with (lit "~~~") trimmed
    then false
    else is_heading_line trimmed

-- The starts of the heading lines among the lines of a text whose first begins at `start`.
unfoldable pub line_headings : ℕ → Option Text → List Text → List ℕ
line_headings start fence [] = []
line_headings start fence (line ∷ lines) =
    let trimmed = trim_start line in
    let rest = line_headings (start + byte_len line + 1) (fence_after fence trimmed) lines in
    if is_heading_at fence trimmed then start ∷ rest else rest

abbrev pub prepend : Text → List Text → List Text
prepend l [] = l ∷ []
prepend l (p ∷ ps) = (l ++ p) ∷ ps

abbrev pub is_newline : ℕ → Bool
is_newline c = c == b'\n'

pub prepend-cons_first :
    (l : Text) (c : ℕ) (ps : List Text) → prepend l (cons_first c ps) ≡ prepend (l ++ c ∷ []) ps
unfolding cons_first
prepend-cons_first l c [] = refl
prepend-cons_first l c (p ∷ ps) = rw (append_assoc l (c ∷ []) p)

prepend-nil-cons_first : (c : ℕ) (ps : List Text) → prepend [] (cons_first c ps) ≡ cons_first c ps
unfolding cons_first
prepend-nil-cons_first c [] = refl
prepend-nil-cons_first c (p ∷ ps) = refl

pub prepend-nil-split : (p : ℕ → Bool) (s : Text) → prepend [] (split p s) ≡ split p s
unfolding split
prepend-nil-split p [] = refl
prepend-nil-split p (c ∷ s) = elim (Bool-cases (p c)) [
  | inl e ↦ rw e
  | inr e ↦ rw e (prepend-nil-cons_first c (split p s))
]

is_heading_at-nil : (fence : Option Text) → is_heading_at fence (trim_start []) ≡ false
unfolding is_heading_line trim_start starts_with lit
is_heading_at-nil none = refl
is_heading_at-nil (some m) = refl

last_line-eq :
    (out line : Text) (offset line_start : ℕ) (fence : Option Text)
    → offset ≡ line_start + byte_len line
    → last_line (record {
      out = out;
      offset = offset;
      line_start = line_start;
      line = line;
      fence_marker = fence;
    })
      ≡ out ++ line_headings line_start fence (line ∷ [])
unfolding last_line line_headings byte_len
last_line-eq out [] offset start none e = ground (arith, is_heading_at-nil none, append-nil out)
last_line-eq out (c ∷ l) offset start none e = ground (arith, len_utf8_pos c, append-nil out)
last_line-eq out line offset start (some m) e = ground (arith, append-nil out)

-- What the end of a line does, in the terms of the description.
abbrev closed : Scan → Text → Scan
closed s trimmed = record s {
  out = if is_heading_at s.fence_marker trimmed then s.out ++ s.line_start ∷ [] else s.out;
  fence_marker = fence_after s.fence_marker trimmed;
}

end_line-closed :
    (s : Scan) (fence : Option Text) (trimmed : Text)
    → s.fence_marker ≡ fence
    → end_line s fence trimmed ≡ closed s trimmed
unfolding end_line
end_line-closed s none trimmed e = ground arith
end_line-closed s (some m) trimmed e = ground arith

append-if :
    (b : Bool) (out rest : List ℕ) (x : ℕ)
    → (if b then out ++ x ∷ [] else out) ++ rest ≡ out ++ (if b then x ∷ rest else rest)
append-if true out rest x = append_assoc out (x ∷ []) rest
append-if false out rest x = refl

-- One line in the description.
line_headings-cons :
    (start start' : ℕ) (fence : Option Text) (out line : Text) (lines : List Text)
    → start' ≡ start + byte_len line + 1
    → (if is_heading_at fence (trim_start line) then out ++ start ∷ [] else out)
        ++ line_headings start' (fence_after fence (trim_start line)) lines
      ≡ out ++ line_headings start fence (line ∷ lines)
unfolding line_headings
line_headings-cons start start' fence out line lines e =
    rw e (append-if (is_heading_at fence (trim_start line)) out _ start)

-- The loop from a state that has read a part of a line, on the rest of the text.
last_line-scan :
    (text : Text) (s : Scan)
    → s.offset ≡ s.line_start + byte_len s.line
    → last_line (scan s text)
      ≡ s.out ++ line_headings s.line_start s.fence_marker (prepend s.line (split is_newline text))
unfolding scan split byte_len next_line
last_line-scan [] s e =
    rw append-nil (last_line-eq s.out s.line s.offset s.line_start s.fence_marker e)
last_line-scan (c ∷ text) s e = elim (Bool-cases (c == b'\n')) [
  | inl newline ↦
      let after : Scan = next_line (closed s (trim_start s.line)) in
      let step : scan_char s c ≡ after =
        unfold scan_char in rw newline (ap next_line (end_line-closed s s.fence_marker _ refl)) in
      rw (step, newline)
        (rw append-nil (
          last_line-scan text after (omega arith)
          ∙ rw prepend-nil-split (
              line_headings-cons s.line_start (s.offset + 1) s.fence_marker s.out s.line _
                (omega arith))))
  | inr other ↦
      let after : Scan = record s { offset = s.offset + len_utf8 c; line = s.line ++ c ∷ [] } in
      let step : scan_char s c ≡ after = unfold scan_char in rw other in
      rw (step, other)
        (rw prepend-cons_first
          (last_line-scan text after (omega (arith, byte_len-append s.line (c ∷ [])))))
]

-- The headings that the byte loop finds are those of the lines of the text, read one by one with
-- the fence that is open before each: where no fence is open and the line opens none.
pub heading_starts-eq-line_headings :
    (text : Text) → heading_starts text ≡ line_headings 0 none (split is_newline text)
unfolding heading_starts byte_len
heading_starts-eq-line_headings text =
    last_line-scan text start_scan refl
    ∙ ap (line_headings 0 none) (prepend-nil-split is_newline text)

-- ===== src/Tokenize/Headings/Positions.antt =====
-- Where headings start (crates/skb-core/src/tokenize.rs): on character boundaries, at heading
-- lines, in rising order. So the slices that read a heading cannot panic.
use surreal_knowledge_base.Base.{
  ℕ, ◌+◌, ◌-◌, ◌≤◌, ◌<◌, ◌≡◌, refl, ap, ◌∙◌, subst, inl, inr, Text, byte_len, len_utf8, trim_start,
  drop_bytes, split, Option, none, some, List, [], ◌∷◌, ◌++◌, true, false, ◌==◌, if◌then◌else◌,
  Bool-cases, append_assoc, append-nil, arith, All, All-map, All-append, ==_iff, IsRising,
}
use surreal_knowledge_base.Base.Chars.{byte_len-append, len_utf8_pos}
use surreal_knowledge_base.Tokenize.Headings.{is_heading_line, first_line, heading_starts}
use surreal_knowledge_base.Tokenize.Headings.Lines.{
  fence_after, is_heading_at, line_headings, prepend, is_newline, prepend-cons_first,
  prepend-nil-split, heading_starts-eq-line_headings,
}

line_headings-ge :
    (start : ℕ) (fence : Option Text) (lines : List Text)
    → All (λ h. start ≤ h) (line_headings start fence lines)
unfolding line_headings
line_headings-ge start fence [] = tt
line_headings-ge start fence (line ∷ lines) =
    let rest =
      All-map {Q = λ h. start ≤ h} (λ h (k : start + byte_len line + 1 ≤ h). omega arith) _
        (line_headings-ge (start + byte_len line + 1) (fence_after fence (trim_start line))
          lines) in
    elim (Bool-cases (is_heading_at fence (trim_start line))) [
      | inl yes_head ↦ rw yes_head (omega arith, rest)
      | inr no_head ↦ rw no_head rest
    ]

line_headings-IsRising :
    (start : ℕ) (fence : Option Text) (lines : List Text)
    → IsRising (line_headings start fence lines)
unfolding line_headings
line_headings-IsRising start fence [] = tt
line_headings-IsRising start fence (line ∷ lines) =
    let next = start + byte_len line + 1 in
    let fence' = fence_after fence (trim_start line) in
    let above : All (λ h. start < h) (line_headings next fence' lines) =
      All-map (λ h (k : next ≤ h). omega arith) _ (line_headings-ge next fence' lines) in
    let rest = line_headings-IsRising next fence' lines in
    elim (Bool-cases (is_heading_at fence (trim_start line))) [
      | inl yes_head ↦ rw yes_head (above, rest)
      | inr no_head ↦ rw no_head rest
    ]

-- The text from a heading's offset begins with its line.
pub record IsHeadingStart (text : Text) (h : ℕ) : Type 0 where
  pub rest : Text
  pub boundary : drop_bytes h text ≡ some rest
  pub heading : is_heading_line (trim_start (first_line rest)) ≡ true

abbrev NoNewline : Text → Type 0
NoNewline l = All (λ c. is_newline c ≡ false) l

first_line-append : (l rest : Text) → NoNewline l → first_line (l ++ b'\n' ∷ rest) ≡ l
unfolding first_line
first_line-append [] rest h = refl
first_line-append (c ∷ l) rest (h, k) = rw (h, first_line-append l rest k)

first_line_whole : (l : Text) → NoNewline l → first_line l ≡ l
unfolding first_line
first_line_whole [] h = refl
first_line_whole (c ∷ l) (h, k) = rw (h, first_line_whole l k)

drop_bytes-zero : (s : Text) → drop_bytes 0 s ≡ some s
unfolding drop_bytes
drop_bytes-zero [] = refl
drop_bytes-zero (c ∷ s) = refl

drop_bytes-append :
    (s t : Text) (k n : ℕ) → n ≡ byte_len s + k → drop_bytes n (s ++ t) ≡ drop_bytes k t
unfolding drop_bytes byte_len
drop_bytes-append [] t k n e = ap (λ m. drop_bytes m t) (omega arith)
drop_bytes-append (c ∷ s) t k n e =
    ground (arith, len_utf8_pos c, drop_bytes-append s t k (n - len_utf8 c))

is_heading_at-IsHeading :
    (fence : Option Text) (t : Text) → is_heading_at fence t ≡ true → is_heading_line t ≡ true
is_heading_at-IsHeading none t h = ground arith
is_heading_at-IsHeading (some m) t h = cc

-- `h` is the start of a heading of a text whose own first byte has the offset `start`.
abbrev At : ℕ → Text → ℕ → Type 0
At start text h = (k : ℕ) × (h ≡ start + k) × IsHeadingStart text k

here-At :
    (start : ℕ) (text line : Text)
    → first_line text ≡ line
    → is_heading_line (trim_start line) ≡ true
    → At start text start
here-At start text line e h =
    (0, omega arith, record { rest = text; boundary = drop_bytes-zero text; heading = rw e h })

At-later :
    (start next : ℕ) (before text : Text)
    → next ≡ start + byte_len before
    → (h : ℕ) → At next text h
    → At start (before ++ text) h
At-later start next before text e h (k, p, q) = (
  byte_len before + k,
  omega arith,
  record {
    rest = q.rest;
    boundary = drop_bytes-append before text k _ refl ∙ q.boundary;
    heading = q.heading;
  },
)

-- A newline ends the line: what follows it starts one byte behind the line.
after_newline :
    (start c : ℕ) (line text : Text) (h : ℕ)
    → c ≡ b'\n'
    → At (start + byte_len line + 1) text h
    → At start (line ++ c ∷ text) h
after_newline start c line text h e k =
    subst (λ t. At start t h) (append_assoc line (c ∷ []) text)
      (At-later start (start + byte_len line + 1) (line ++ c ∷ []) text (rw e (width line)) h k)
  where
    width : (l : Text) → start + byte_len l + 1 ≡ start + byte_len (l ++ b'\n' ∷ [])
    width l = unfold byte_len in omega (arith, byte_len-append l (b'\n' ∷ []))

NoNewline-append : (l : Text) (c : ℕ) → NoNewline l → is_newline c ≡ false → NoNewline (l ++ c ∷ [])
NoNewline-append l c h e = All-append (λ d. is_newline d ≡ false) l (c ∷ []) h (e, tt)

with_line :
    (start c : ℕ) (line text : Text) (fence : Option Text)
    → NoNewline line
    → c ≡ b'\n'
    → (rest : List ℕ) → All (At start (line ++ c ∷ text)) rest
    → All
        (At start (line ++ c ∷ text))
        (if is_heading_at fence (trim_start line) then start ∷ rest else rest)
with_line start c line text fence h e rest k =
    elim (Bool-cases (is_heading_at fence (trim_start line))) [
      | inl headed ↦ rw headed (
        here-At start (line ++ c ∷ text) line (rw e (first_line-append line text h))
            (is_heading_at-IsHeading fence _ headed),
        k,
      )
      | inr plain ↦ rw plain k
    ]

line_headings-At :
    (text line : Text) (start : ℕ) (fence : Option Text)
    → NoNewline line
    → All
        (At start (line ++ text))
        (line_headings start fence (prepend line (split is_newline text)))
unfolding split line_headings
line_headings-At [] line start fence h =
    elim (Bool-cases (is_heading_at fence (trim_start (line ++ [])))) [
      | inl headed ↦ rw headed (
        here-At start (line ++ []) (line ++ []) (rw append-nil (first_line_whole line h))
            (is_heading_at-IsHeading fence _ headed),
        tt,
      )
      | inr plain ↦ rw plain tt
    ]
line_headings-At (c ∷ text) line start fence h = elim (Bool-cases (c == b'\n')) [
  | inl newline ↦
      let is_nl = (==_iff c b'\n').0 newline in
      let fence' = fence_after fence (trim_start line) in
      let next = start + byte_len line + 1 in
      let rest : All (At start (line ++ c ∷ text))
          (line_headings next fence' (split is_newline text)) =
        All-map (λ j k. after_newline start c line text j is_nl k) _
          (rw prepend-nil-split at (line_headings-At text [] next fence' tt)) in
      rw newline (rw append-nil (with_line start c line text fence h is_nl _ rest))
  | inr other ↦ rw other (
      rw prepend-cons_first (
        rw (← append_assoc line (c ∷ []) text)
          (line_headings-At text (line ++ c ∷ []) start fence (NoNewline-append line c h other))))
]

from_zero : (text : Text) (h : ℕ) → At 0 text h → IsHeadingStart text h
from_zero text h (k, p, q) = subst (IsHeadingStart text) (omega arith) q

pub heading_starts_positions :
    (text : Text) → All (IsHeadingStart text) (heading_starts text) × IsRising (heading_starts text)
heading_starts_positions text = rw heading_starts-eq-line_headings (
  All-map (λ h k. from_zero text h k) _
      (rw prepend-nil-split at (line_headings-At text [] 0 none tt)),
  line_headings-IsRising 0 none (split is_newline text),
)

-- ===== src/Ingest/Text/Plain.antt =====
-- What `html_to_text` of crates/skb-core/src/ingest.rs leaves of a text.
use surreal_knowledge_base.Base.{
  ℕ, Text, is_whitespace, Bool, true, false, ◌||◌, ◌==◌, [], ◌∷◌, All, ◌≡◌, refl, ap, ap₂, sym,
  subst, ◌↔◌, ◌∙◌, arith, if◌then◌else◌, Bool-cases, inl, inr,
}
use surreal_knowledge_base.Ingest.Text.{strip_tags, collapse, html_to_text}

abbrev is_bracket : ℕ → Bool
is_bracket c = c == b'<' || c == b'>'

-- The only white space is single spaces; `prev_space` tells that one has just been read.
abbrev pub IsSpaced : Bool → Text → Type 0
IsSpaced prev_space [] = Unit
IsSpaced prev_space (c ∷ s) =
    (if is_whitespace c then (c ≡ b' ') × (prev_space ≡ false) else Unit)
    × IsSpaced (is_whitespace c) s

-- Text without tags, spaced.
pub record IsPlain (s : Text) : Type 0 where
  pub no_brackets : All (λ c. is_bracket c ≡ false) s
  pub spaced : IsSpaced false s

strip_tags-All : (in_tag : Bool) (s : Text) → All (λ c. is_bracket c ≡ false) (strip_tags in_tag s)
unfolding strip_tags
strip_tags-All in_tag [] = tt
strip_tags-All in_tag (c ∷ s) = elim (Bool-cases (c == b'<')) [
  | inl e ↦ rw e (strip_tags-All true s)
  | inr e ↦ elim (Bool-cases (c == b'>')) [
    | inl f ↦ rw (e, f) (strip_tags-All false s)
    | inr f ↦ elim (Bool-cases in_tag) [
      | inl g ↦ rw (e, f, g) (strip_tags-All true s)
      | inr g ↦ rw (e, f, g) (rw (e, f), strip_tags-All false s)
    ]
  ]
]

space_is_whitespace : is_whitespace b' ' ≡ true
unfolding is_whitespace
space_is_whitespace = refl

collapse-All :
    (prev_space : Bool) (s : Text)
    → All (λ c. is_bracket c ≡ false) s
    → All (λ c. is_bracket c ≡ false) (collapse prev_space s)
unfolding collapse
collapse-All prev_space [] h = tt
collapse-All prev_space (c ∷ s) (p, h) = elim (Bool-cases (is_whitespace c)) [
  | inl e ↦ elim (Bool-cases prev_space) [
    | inl f ↦ rw (e, f) (collapse-All true s h)
    | inr f ↦ rw (e, f) (refl, collapse-All true s h)
  ]
  | inr e ↦ rw e (p, collapse-All false s h)
]

collapse-IsSpaced : (prev_space : Bool) (s : Text) → IsSpaced prev_space (collapse prev_space s)
unfolding collapse
collapse-IsSpaced prev_space [] = tt
collapse-IsSpaced prev_space (c ∷ s) = elim (Bool-cases (is_whitespace c)) [
  | inl e ↦ elim (Bool-cases prev_space) [
    | inl f ↦ rw (e, f) (collapse-IsSpaced true s)
    | inr f ↦ rw (e, f) (rw space_is_whitespace ((refl, refl), collapse-IsSpaced true s))
  ]
  | inr e ↦ rw (e, e) (tt, collapse-IsSpaced false s)
]

strip_tags-plain : (s : Text) → All (λ c. is_bracket c ≡ false) s → strip_tags false s ≡ s
unfolding strip_tags
strip_tags-plain [] h = refl
strip_tags-plain (c ∷ s) (p, h) = ground (arith, strip_tags-plain s h)

collapse-spaced : (prev_space : Bool) (s : Text) → IsSpaced prev_space s → collapse prev_space s ≡ s
unfolding collapse
collapse-spaced prev_space [] h = refl
collapse-spaced prev_space (c ∷ s) (p, h) = elim (Bool-cases (is_whitespace c)) [
  | inl e ↦
      let (space, first) = (rw e at p) in
      rw (e, first) (ap₂ (λ x y. x ∷ y) (sym space) (collapse-spaced true s (rw e at h)))
  | inr e ↦ rw e (ap (λ t. c ∷ t) (collapse-spaced false s (rw e at h)))
]

html_to_text-of_plain : (s : Text) → IsPlain s → html_to_text s ≡ s
unfolding html_to_text
html_to_text-of_plain s h =
    ap (collapse false) (strip_tags-plain s h.no_brackets) ∙ collapse-spaced false s h.spaced

pub html_to_text-IsPlain : (html : Text) → IsPlain (html_to_text html)
unfolding html_to_text
html_to_text-IsPlain html = record {
  no_brackets = collapse-All false (strip_tags false html) (strip_tags-All false html);
  spaced = collapse-IsSpaced false (strip_tags false html);
}

-- The text of an HTML page has no angle bracket, and its only white space is single spaces; a text
-- that is such already is left as it is, so that extracting it again changes nothing.
pub html_to_text_fixed_iff :
    (html : Text)
    → IsPlain (html_to_text html)
      × (html_to_text (html_to_text html) ≡ html_to_text html)
      × ((html_to_text html ≡ html) ↔ IsPlain html)
html_to_text_fixed_iff html = (
  html_to_text-IsPlain html,
  html_to_text-of_plain (html_to_text html) (html_to_text-IsPlain html),
  ((λ e. subst IsPlain e (html_to_text-IsPlain html)), html_to_text-of_plain html),
)

-- ===== src/Config/Parse.antt =====
-- `FromStr` as config.rs uses it: unsigned integers (the standard library's parser, on a 64-bit
-- target), `SearchMode` and `StorageMode`, and the names that `as_str` prints.
use surreal_knowledge_base.Base.{
  ℕ, zero, suc, ◌+◌, ◌-◌, ◌*◌, ◌/◌, ◌%◌, ◌^◌, ◌≤◌, ◌<◌, ◌≡◌, refl, Text, lit, show, text_eq,
  text_eq_iff, Bool, ◌&&◌, ltb, leb, ◌==◌, if◌then◌else◌, [], ◌∷◌, ◌++◌, arith, ◌↔◌, inl, inr,
  Bool-cases, ◌∙◌,
}
use surreal_knowledge_base.Base.Chars.{digits_from}
use surreal_knowledge_base.Error.{SkbError, Outcome, ok, err, ◌>>=◌, >>=-eq-ok}
use surreal_knowledge_base.Config.{
  SearchMode, hybrid, vector, keyword, StorageMode, embedded, remote, invalid,
}

abbrev pub u64_max : ℕ
u64_max = 2 ^ 64 - 1

-- `core::num::IntErrorKind`, as far as an unsigned parse gives it.
pub data ParseIntError : Type 0 where
  empty invalid_digit pos_overflow : ParseIntError

pub show_error : ParseIntError → Text
show_error empty = lit "cannot parse integer from empty string"
show_error invalid_digit = lit "invalid digit found in string"
show_error pos_overflow = lit "number too large to fit in target type"

abbrev is_digit : ℕ → Bool
is_digit c = leb b'0' c && leb c b'9'

-- One `checked_mul` and one `checked_add` for each digit.
parse_digits : ℕ → ℕ → Text → Outcome ParseIntError ℕ
parse_digits max n [] = ok n
parse_digits max n (c ∷ s) =
    let rest = parse_digits max (n * 10 + (c - b'0')) s in
    if is_digit c
    then (if ltb max (n * 10 + (c - b'0')) then err pos_overflow else rest)
    else err invalid_digit

strip_plus : Text → Outcome ParseIntError Text
strip_plus [] = err empty
strip_plus (c ∷ []) = if c == b'+' then err invalid_digit else ok (c ∷ [])
strip_plus (c ∷ d ∷ s) = if c == b'+' then ok (d ∷ s) else ok (c ∷ d ∷ s)

-- `str::parse::<usize>` and `str::parse::<u64>`
unfoldable pub parse_unsigned : Text → Outcome ParseIntError ℕ
unfolding parse_digits strip_plus
parse_unsigned s = strip_plus s >>= parse_digits u64_max 0

-- `SearchMode::as_str`
unfoldable pub as_str : SearchMode → Text
as_str hybrid = lit "hybrid"
as_str vector = lit "vector"
as_str keyword = lit "keyword"

-- `SearchMode::from_str`
unfoldable pub parse_search_mode : Text → Outcome SkbError SearchMode
parse_search_mode s =
    if text_eq s (lit "hybrid")
    then ok hybrid
    else if text_eq s (lit "vector")
    then ok vector
    else if text_eq s (lit "keyword")
    then ok keyword
    else invalid (lit "unknown mode: " ++ s)

-- `StorageMode::from_str`
unfoldable pub parse_storage_mode : Text → Outcome SkbError StorageMode
parse_storage_mode s =
    if text_eq s (lit "embedded")
    then ok embedded
    else if text_eq s (lit "remote")
    then ok remote
    else invalid (lit "unknown storage mode: " ++ s)

parse-as_str : (m : SearchMode) → parse_search_mode (as_str m) ≡ ok m
unfolding parse_search_mode as_str lit text_eq
parse-as_str hybrid = refl
parse-as_str vector = refl
parse-as_str keyword = refl

-- A search mode is read exactly from its printed name: every printed mode parses back, and a text
-- that parses is the printed form of its mode.
pub parse-as_str_iff : (s : Text) (m : SearchMode) → (parse_search_mode s ≡ ok m) ↔ (s ≡ as_str m)
unfolding parse_search_mode as_str
parse-as_str_iff s m = (
  λ h. ground (
    arith,
    text_eq_iff s (lit "hybrid"),
    text_eq_iff s (lit "vector"),
    text_eq_iff s (lit "keyword"),
  ),
  λ e. rw e (parse-as_str m),
)

-- The digit loop reads back what `digits_from` writes, at the value reached so far.
parse_digits-digits_from :
    (max fuel n : ℕ) (acc : Text)
    → n < fuel
    → n ≤ max
    → parse_digits max 0 (digits_from fuel n acc) ≡ parse_digits max n acc
unfolding parse_digits digits_from
parse_digits-digits_from max zero n acc h k = absurd (omega arith)
parse_digits-digits_from max (suc fuel) n acc h k =
    ground (arith, parse_digits-digits_from max fuel (n / 10) ((n % 10 + b'0') ∷ acc))

abbrev StartsWithDigit : Text → Type 0
StartsWithDigit [] = ⊥
StartsWithDigit (c ∷ s) = (b'0' ≤ c) × (c ≤ b'9')

digits_from-StartsWithDigit :
    (fuel n : ℕ) (acc : Text) → n < fuel → StartsWithDigit (digits_from fuel n acc)
unfolding digits_from
digits_from-StartsWithDigit zero n acc h = absurd (omega arith)
digits_from-StartsWithDigit (suc fuel) n acc h = elim (Bool-cases (ltb n 10)) [
  | inl small ↦ rw small (omega arith, omega arith)
  | inr large ↦
      rw large (digits_from-StartsWithDigit fuel (n / 10) ((n % 10 + b'0') ∷ acc) (ground arith))
]

strip_plus_of_digit : (s : Text) → StartsWithDigit s → strip_plus s ≡ ok s
unfolding strip_plus
strip_plus_of_digit [] h = absurd h
strip_plus_of_digit (c ∷ []) h = ground arith
strip_plus_of_digit (c ∷ d ∷ s) h = ground arith

-- A 64-bit number that is printed in decimal is read back as itself.
pub parse_unsigned-show : (n : ℕ) → n ≤ u64_max → parse_unsigned (show n) ≡ ok n
unfolding parse_unsigned show
parse_unsigned-show n h =
    rw (strip_plus_of_digit _ (digits_from-StartsWithDigit (suc n) n [] (omega arith)))
      (parse_digits-digits_from u64_max (suc n) n [] (omega arith) h ∙ parse_digits-nil n)
  where
    parse_digits-nil : (m : ℕ) → parse_digits u64_max m [] ≡ ok m
    parse_digits-nil m = unfold parse_digits in refl

parse_digits-le : (max n : ℕ) (s : Text) (r : ℕ) → n ≤ max → parse_digits max n s ≡ ok r → r ≤ max
unfolding parse_digits
parse_digits-le max n [] r h e = ground arith
parse_digits-le max n (c ∷ s) r h e = ground (arith, parse_digits-le max (n * 10 + (c - b'0')) s r)

-- What is read fits in 64 bits.
pub parse_unsigned-le : (s : Text) (r : ℕ) → parse_unsigned s ≡ ok r → r ≤ u64_max
unfolding parse_unsigned
parse_unsigned-le s r e =
    let (t, _, p) = >>=-eq-ok (strip_plus s) (parse_digits u64_max 0) e in
    parse_digits-le u64_max 0 t r (omega arith) p

-- ===== src/Ingest/Utf8.antt =====
-- `str::as_bytes` and `std::str::from_utf8`, as crates/skb-core/src/ingest.rs uses them.
use surreal_knowledge_base.Base.{
  ℕ, ◌+◌, ◌*◌, ◌/◌, ◌%◌, ◌-◌, Text, Bool, ◌&&◌, ◌==◌, ltb, leb, Option, none, some, List, [], ◌∷◌,
  if◌then◌else◌,
}
use mathlib.Core.Option

unfoldable pub encode : Text → List ℕ
encode [] = []
encode (c ∷ s) =
    if ltb c 0x80
    then c ∷ encode s
    else if ltb c 0x800
    then (0xc0 + c / 64) ∷ (0x80 + c % 64) ∷ encode s
    else if ltb c 0x10000
    then (0xe0 + c / 4096) ∷ (0x80 + c / 64 % 64) ∷ (0x80 + c % 64) ∷ encode s
    else (0xf0 + c / 262144)
      ∷ (0x80 + c / 4096 % 64)
      ∷ (0x80 + c / 64 % 64)
      ∷ (0x80 + c % 64)
      ∷ encode s

abbrev within : ℕ → ℕ → ℕ → Bool
within low high b = leb low b && leb b high

abbrev is_continuation : ℕ → Bool
is_continuation b = within 0x80 0xbf b

-- The second byte of three, which rules out overlong forms and surrogates.
abbrev is_second_of_3 : ℕ → ℕ → Bool
is_second_of_3 a b =
    if a == 0xe0
    then within 0xa0 0xbf b
    else if a == 0xed
    then within 0x80 0x9f b
    else is_continuation b

-- The second byte of four, which rules out overlong forms and code points that are too high.
abbrev is_second_of_4 : ℕ → ℕ → Bool
is_second_of_4 a b =
    if a == 0xf0
    then within 0x90 0xbf b
    else if a == 0xf4
    then within 0x80 0x8f b
    else is_continuation b

-- What is open in a character: the code so far, and the continuation bytes that are missing.
pub data Open : Type 0 where
  closed : Open
  second_of_2 : ℕ → Open
  second_of_3 : ℕ → Open
  second_of_4 : ℕ → Open
  last_1 : ℕ → Open
  last_2 : ℕ → Open

-- A byte read where a character is open, or not: nothing if it is not allowed there.
first_byte : ℕ → Option (Open × Option ℕ)
first_byte a =
    if ltb a 0x80
    then some (closed, some a)
    else if within 0xc2 0xdf a
    then some (second_of_2 a, none)
    else if within 0xe0 0xef a
    then some (second_of_3 a, none)
    else if within 0xf0 0xf4 a
    then some (second_of_4 a, none)
    else none

next_byte : Open → ℕ → Option (Open × Option ℕ)
unfolding first_byte
next_byte closed b = first_byte b
next_byte (second_of_2 a) b =
    if is_continuation b then some (closed, some ((a - 0xc0) * 64 + (b - 0x80))) else none
next_byte (second_of_3 a) b =
    if is_second_of_3 a b then some (last_1 ((a - 0xe0) * 64 + (b - 0x80)), none) else none
next_byte (second_of_4 a) b =
    if is_second_of_4 a b then some (last_2 ((a - 0xf0) * 64 + (b - 0x80)), none) else none
next_byte (last_1 c) b =
    if is_continuation b then some (closed, some (c * 64 + (b - 0x80))) else none
next_byte (last_2 c) b =
    if is_continuation b then some (last_1 (c * 64 + (b - 0x80)), none) else none

abbrev put_char : Option ℕ → Option Text → Option Text
put_char none rest = rest
put_char (some c) rest = Option.map (λ s. c ∷ s) rest

decode_from : Open → List ℕ → Option Text
unfolding next_byte
decode_from closed [] = some []
decode_from _ [] = none
decode_from open_char (b ∷ bytes) = elim (next_byte open_char b) [
  | none ↦ none
  | some (after, char) ↦ put_char char (decode_from after bytes)
]

-- `std::str::from_utf8`: nothing if the bytes are not UTF-8.
unfoldable pub from_utf8 : List ℕ → Option Text
unfolding decode_from
from_utf8 bytes = decode_from closed bytes

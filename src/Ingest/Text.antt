-- ===== src/Ingest/Text.antt =====
-- File types and text extraction: `mime_for`, `extract_text_with_mime`, `extract_text` and
-- `html_to_text` of crates/skb-core/src/ingest.rs, with the parts of `std::path` that they use.
pub mod Plain
use mathlib.Core.List.{reverse}
use surreal_knowledge_base.Base.{
  ℕ, Text, lit, text_eq, is_whitespace, is_empty, contains, split, split_once, starts_with, Bool,
  true, false, not, ◌&&◌, ◌||◌, ◌==◌, Option, none, some, List, [], ◌∷◌, filter_by, any_by,
  if◌then◌else◌,
}
use surreal_knowledge_base.Search.Terms.{Unicode}

abbrev last : List Text → Option Text
last [] = none
last (x ∷ []) = some x
last (_ ∷ y ∷ xs) = last (y ∷ xs)

abbrev is_part : Text → Bool
is_part s = not (is_empty s) && not (text_eq s (lit "."))

-- `Path::file_name`, where the separator is a slash: the last component, unless it is `..`.
unfoldable pub file_name : Text → Option Text
file_name path = elim (last (filter_by is_part (split (λ c. c == b'/') path))) [
  | none ↦ none
  | some name ↦ if text_eq name (lit "..") then none else some name
]

-- What follows the last dot of a name, given reversed; a dot in front does not count.
after_dot : Option (Text × Text) → Option Text
after_dot none = none
after_dot (some (after, [])) = none
after_dot (some (after, _ ∷ _)) = some (reverse after)

-- `Path::extension`
unfoldable pub extension : Text → Option Text
unfolding file_name after_dot
extension path = elim (file_name path) [
  | none ↦ none
  | some name ↦ after_dot (split_once b'.' (reverse name))
]

unfoldable pub ends_with : Text → Text → Bool
ends_with suffix s = starts_with (reverse suffix) (reverse s)

abbrev one_of : List Text → Text → Bool
one_of names s = any_by (λ name. text_eq name s) names

unfoldable pub mime_of_extension : Text → Option Text
mime_of_extension ext =
    if one_of (lit "md" ∷ lit "markdown" ∷ []) ext
    then some (lit "text/markdown")
    else if text_eq (lit "txt") ext
    then some (lit "text/plain")
    else if one_of (lit "html" ∷ lit "htm" ∷ []) ext
    then some (lit "text/html")
    else if text_eq (lit "json") ext
    then some (lit "application/json")
    else if one_of (lit "yaml" ∷ lit "yml" ∷ []) ext
    then some (lit "application/x-yaml")
    else if text_eq (lit "pdf") ext
    then some (lit "application/pdf")
    else if text_eq (lit "csv") ext
    then some (lit "text/csv")
    else if text_eq (lit "rs") ext
    then some (lit "text/x-rust")
    else none

-- `mime_for`
unfoldable pub mime_for : Unicode → Text → Option Text
unfolding extension mime_of_extension
mime_for u name = elim (extension name) [
  | none ↦ mime_of_extension []
  | some ext ↦ mime_of_extension (u.to_lowercase ext)
]

-- The first loop of `html_to_text`: what stands outside tags.
unfoldable pub strip_tags : Bool → Text → Text
strip_tags in_tag [] = []
strip_tags in_tag (c ∷ html) =
    let opened = strip_tags true html in
    let closed = strip_tags false html in
    if c == b'<'
    then opened
    else if c == b'>'
    then closed
    else if in_tag
    then opened
    else c ∷ closed

-- The second loop: a run of white space becomes one space.
unfoldable pub collapse : Bool → Text → Text
collapse prev_space [] = []
collapse prev_space (c ∷ text) =
    let after_space = collapse true text in
    let after_char = collapse false text in
    if is_whitespace c
    then (if prev_space then after_space else b' ' ∷ after_space)
    else c ∷ after_char

-- `html_to_text`
unfoldable pub html_to_text : Text → Text
unfolding strip_tags collapse
html_to_text html = collapse false (strip_tags false html)

-- `extract_text`
unfoldable pub extract_text : Unicode → Text → Text → Text
unfolding html_to_text ends_with
extract_text u content source =
    let lower = u.to_lowercase source in
    if ends_with (lit ".md") lower
      || ends_with (lit ".markdown") lower
      || contains (lit "markdown") source
    then content
    else if ends_with (lit ".html") lower || ends_with (lit ".htm") lower
    then html_to_text content
    else content

-- `extract_text_with_mime`
unfoldable pub extract_text_with_mime : Unicode → Text → Text → Option Text → Text
unfolding html_to_text extract_text
extract_text_with_mime u content source none = extract_text u content source
extract_text_with_mime u content source (some mime) =
    if text_eq (u.to_lowercase mime) (lit "text/html")
    then html_to_text content
    else extract_text u content source

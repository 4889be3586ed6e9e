-- ===== src/Graph/Frontmatter.antt =====
-- Lists of the YAML frontmatter, as crates/skb-core/src/graph.rs reads them.
use surreal_knowledge_base.Base.{
  ℕ, ◌≡◌, refl, Text, lit, trim, text_eq, starts_with, strip_prefix, split_once, split, is_empty,
  Option, none, some, List, [], ◌∷◌, ◌++◌, map, ◌==◌, Bool, true, false, not, ◌&&◌, ◌||◌, filter_by,
  All, All-append, subst, arith, if◌then◌else◌, Bool-cases, inl, inr,
}
use mathlib.Core.List.{reverse}
use mathlib.Core.Option
use surreal_knowledge_base.Base.Chars.{drop_while}

-- `str::find` with a text, as the text in front of its first occurrence.
unfoldable pub before_first : Text → Text → Option Text
before_first p [] = if is_empty p then some [] else none
before_first p (c ∷ s) =
    let rest = before_first p s in
    if starts_with p (c ∷ s) then some [] else Option.map (λ t. c ∷ t) rest

cut_body : Option Text → Option Text
cut_body none = none
cut_body (some rest) = before_first (lit "\n---") rest

-- `frontmatter_body`
unfoldable pub frontmatter_body : Text → Option Text
unfolding cut_body
frontmatter_body content = cut_body (strip_prefix (lit "---") content)

-- `str::trim_matches` with a character.
abbrev trim_char : ℕ → Text → Text
trim_char d s = reverse (drop_while (λ c. c == d) (reverse (drop_while (λ c. c == d) s)))

last_char : Text → Option ℕ
last_char [] = none
last_char (c ∷ []) = some c
last_char (c ∷ d ∷ s) = last_char (d ∷ s)

drop_last : Text → Text
drop_last [] = []
drop_last (c ∷ []) = []
drop_last (c ∷ d ∷ s) = c ∷ drop_last (d ∷ s)

ends_with : ℕ → Text → Bool
ends_with d s = elim (last_char s) [ none ↦ false | some c ↦ c == d ]

-- One item of an inline list.
abbrev list_item : Text → Text
list_item item = trim_char b'\'' (trim_char b'"' (trim item))

-- The items between the brackets.
inline_items : Text → List Text
inline_items inner =
    filter_by (λ i. not (is_empty i)) (map list_item (split (λ c. c == b',') inner))

abbrev tail_of : Text → Text
tail_of [] = []
tail_of (_ ∷ s) = s

-- `parse_inline_list`; a text that begins with one bracket and ends with the other has both, so the
-- slice between them exists.
unfoldable pub parse_inline_list : Text → Option (List Text)
unfolding inline_items ends_with last_char drop_last
parse_inline_list rest =
    let r = trim rest in
    if not (starts_with (lit "[") r) || not (ends_with b']' r)
    then none
    else some (inline_items (drop_last (tail_of r)))

strip_cr : Text → Text
strip_cr s = if ends_with b'\r' s then drop_last s else s

drop_empty_last : List Text → List Text
drop_empty_last [] = []
drop_empty_last (l ∷ []) = if is_empty l then [] else l ∷ []
drop_empty_last (l ∷ m ∷ ls) = l ∷ drop_empty_last (m ∷ ls)

-- `str::lines`
unfoldable pub lines : Text → List Text
unfolding strip_cr drop_empty_last ends_with last_char drop_last
lines s = map strip_cr (drop_empty_last (split (λ c. c == b'\n') s))

pub record Collect : Type 0 where
  pub in_list : Bool
  pub out : List Text

add_item : Collect → Text → Collect
add_item s item =
    if s.in_list && not (is_empty item) then record s { out = s.out ++ item ∷ [] } else s

-- What a value after `key:` does when it is the key that is looked for.
enter_list : Collect → Option (List Text) → Collect
enter_list s none = record s { in_list = true }
enter_list s (some items) = record { in_list = false; out = s.out ++ items }

key_line : Text → Collect → Option (Text × Text) → Collect
key_line key s none = record s { in_list = false }
key_line key s (some (k, rest)) =
    if text_eq (trim k) key
    then enter_list s (parse_inline_list (trim rest))
    else record s { in_list = false }

item_line : Text → Collect → Text → Option Text → Collect
item_line key s trimmed (some rest) = add_item s (trim rest)
item_line key s trimmed none = key_line key s (split_once b':' trimmed)

-- The loop over the lines, up to a line of dashes.
unfoldable pub collect : Text → Collect → List Text → Collect
unfolding item_line key_line enter_list add_item
collect key s [] = s
collect key s (line ∷ rest) =
    let trimmed = trim line in
    let onward = collect key (item_line key s trimmed (strip_prefix (lit "-") trimmed)) rest in
    if starts_with (lit "---") trimmed then s else onward

list_of_body : Text → Option Text → List Text
list_of_body key none = []
list_of_body key (some body) = (collect key (record { in_list = false; out = [] }) (lines body)).out

-- `frontmatter_list`
unfoldable pub frontmatter_list : Text → Text → List Text
unfolding list_of_body
frontmatter_list content key = list_of_body key (frontmatter_body content)

abbrev pub IsNonempty : Text → Type 0
IsNonempty t = is_empty t ≡ false

filter-All : (xs : List Text) → All IsNonempty (filter_by (λ i. not (is_empty i)) xs)
filter-All [] = tt
filter-All ([] ∷ xs) = filter-All xs
filter-All ((c ∷ s) ∷ xs) = (refl, filter-All xs)

parse_inline_list-All :
    (s : Text) (o : Option (List Text))
    → parse_inline_list s ≡ o
    → (items : List Text) → o ≡ some items
    → All IsNonempty items
unfolding parse_inline_list inline_items
parse_inline_list-All s none e items h = cc
parse_inline_list-All s (some found) e items h =
    let inner = drop_last (tail_of (trim s)) in
    let built : inline_items inner ≡ items = ground arith in
    subst (All IsNonempty) built (filter-All (map list_item (split (λ c. c == b',') inner)))

add_item-All :
    (s : Collect) (item : Text) → All IsNonempty s.out → All IsNonempty (add_item s item).out
unfolding add_item
add_item-All s [] h = elim (Bool-cases s.in_list) [ inl e ↦ rw e h | inr e ↦ rw e h ]
add_item-All s (c ∷ item) h = elim (Bool-cases s.in_list) [
  | inl e ↦ rw e (All-append IsNonempty s.out ((c ∷ item) ∷ []) h (refl, tt))
  | inr e ↦ rw e h
]

enter_list-All :
    (s : Collect) (rest : Text)
    → All IsNonempty s.out
    → (o : Option (List Text)) → parse_inline_list rest ≡ o
    → All IsNonempty (enter_list s o).out
unfolding enter_list
enter_list-All s rest h none e = h
enter_list-All s rest h (some items) e =
    All-append IsNonempty s.out items h (parse_inline_list-All rest (some items) e items refl)

key_line-All :
    (key : Text) (s : Collect) (o : Option (Text × Text))
    → All IsNonempty s.out
    → All IsNonempty (key_line key s o).out
unfolding key_line
key_line-All key s none h = h
key_line-All key s (some (k, rest)) h = elim (Bool-cases (text_eq (trim k) key)) [
  | inl e ↦ rw e (enter_list-All s (trim rest) h _ refl)
  | inr e ↦ rw e h
]

item_line-All :
    (key : Text) (s : Collect) (trimmed : Text) (o : Option Text)
    → All IsNonempty s.out
    → All IsNonempty (item_line key s trimmed o).out
unfolding item_line
item_line-All key s trimmed (some rest) h = add_item-All s (trim rest) h
item_line-All key s trimmed none h = key_line-All key s (split_once b':' trimmed) h

collect-All :
    (key : Text) (s : Collect) (ls : List Text)
    → All IsNonempty s.out
    → All IsNonempty (collect key s ls).out
unfolding collect
collect-All key s [] h = h
collect-All key s (line ∷ rest) h = elim (Bool-cases (starts_with (lit "---") (trim line))) [
  | inl e ↦ rw e h
  | inr e ↦ rw e (
      collect-All key (item_line key s (trim line) (strip_prefix (lit "-") (trim line))) rest
        (item_line-All key s (trim line) _ h))
]

-- Whatever the text, no item that is read from a list of the frontmatter is empty.
pub frontmatter_list-All : (content key : Text) → All IsNonempty (frontmatter_list content key)
unfolding frontmatter_list
frontmatter_list-All content key = of_body (frontmatter_body content)
  where
    of_body : (o : Option Text) → All IsNonempty (list_of_body key o)
    of_body none = tt
    of_body (some body) = collect-All key (record { in_list = false; out = [] }) (lines body) tt

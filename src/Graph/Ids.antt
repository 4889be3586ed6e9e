-- ===== src/Graph/Ids.antt =====
-- Entity names, record ids and their text (crates/skb-core/src/graph.rs).
pub mod Quoted
use surreal_knowledge_base.Base.{
  ℕ, ◌≡◌, refl, Text, lit, subst, text_eq, text_eq_iff, split_once, strip_prefix, is_empty, Option,
  none, some, [], ◌∷◌, ◌++◌, ◌==◌, Bool, false, not, ◌||◌, filter_by, arith, if◌then◌else◌, ◌⊎◌,
  inl,
}
use surreal_knowledge_base.Error.{SkbError, Outcome, ok, ok-injective}
use surreal_knowledge_base.Config.{invalid}

abbrev pub open_angle : ℕ
open_angle = 0x27e8

abbrev pub close_angle : ℕ
close_angle = 0x27e9

-- The characters that would break a quoted id: both angle brackets, the backslash, the quote.
abbrev pub is_stripped : ℕ → Bool
is_stripped c = c == open_angle || c == close_angle || c == 0x5c || c == 0x27

unfoldable pub clean_entity_name : Text → Text
clean_entity_name name = filter_by (λ c. not (is_stripped c)) name

unfoldable pub entity_rid : Text → Text
entity_rid name = lit "entity:⟨" ++ clean_entity_name name ++ lit "⟩"

pub record RecordId : Type 0 where
  pub table : Text
  pub key : Text

record_of_key : Text → Outcome SkbError RecordId
record_of_key [] = invalid (lit "entity name must not be empty")
record_of_key (c ∷ s) = ok (record { table = lit "entity"; key = c ∷ s })

unfoldable pub entity_record_id : Text → Outcome SkbError RecordId
unfolding record_of_key
entity_record_id name = record_of_key (clean_entity_name name)

strip_suffix_char : ℕ → Text → Option Text
strip_suffix_char d [] = none
strip_suffix_char d (c ∷ []) = if c == d then some [] else none
strip_suffix_char d (c ∷ e ∷ s) = elim (strip_suffix_char d (e ∷ s)) [
  | none ↦ none
  | some t ↦ some (c ∷ t)
]

-- A name without one pair of brackets around it, or the name.
unbracketed : Text → Option Text → Text
unbracketed value none = value
unbracketed value (some key) = elim (strip_suffix_char close_angle key) [
  | none ↦ value
  | some t ↦ t
]

from_pair : Text → Option (Text × Text) → Outcome SkbError RecordId
from_pair value (some (table, key)) =
    if not (text_eq table (lit "entity") || text_eq table (lit "document")) || is_empty key
    then invalid (lit "invalid graph record id: " ++ value)
    else ok (record { table = table; key = key })
from_pair value none = entity_record_id (unbracketed value (strip_prefix (open_angle ∷ []) value))

unfoldable pub start_record_id : Text → Outcome SkbError RecordId
unfolding from_pair unbracketed strip_suffix_char
start_record_id value = from_pair value (split_once b':' value)

abbrev IsStart : RecordId → Type 0
IsStart r = ((r.table ≡ lit "entity") ⊎ (r.table ≡ lit "document")) × (is_empty r.key ≡ false)

record_of_key-IsStart : (key : Text) (r : RecordId) → record_of_key key ≡ ok r → IsStart r
unfolding record_of_key
record_of_key-IsStart [] r h = cc
record_of_key-IsStart (c ∷ s) r h = subst IsStart (ok-injective h) (inl refl, refl)

from_pair-IsStart :
    (value : Text) (o : Option (Text × Text)) (r : RecordId) → from_pair value o ≡ ok r → IsStart r
unfolding from_pair entity_record_id
from_pair-IsStart value none r h = record_of_key-IsStart _ r h
from_pair-IsStart value (some (table, key)) r h =
    ground (arith, text_eq_iff table (lit "entity"), text_eq_iff table (lit "document"))

-- The id that a graph query starts from names an entity or a document, with a key that is not
-- empty, or the query is refused.
pub start_record_id_table :
    (value : Text) (r : RecordId)
    → start_record_id value ≡ ok r
    → ((r.table ≡ lit "entity") ⊎ (r.table ≡ lit "document")) × (is_empty r.key ≡ false)
unfolding start_record_id
start_record_id_table value r h = from_pair-IsStart value (split_once b':' value) r h

-- ===== src/Json/Printing.antt =====
-- src/parser/JSONParser.cpp: `toString` and `arrayToString`, with the sizes that they reserve.
pub mod Size
use geruest.Prelude.{
  ℕ, ◌+◌, ◌-◌, Bool, true, false, ◌&&◌, ◌||◌, not, List, [], ◌∷◌, ◌++◌, none, some, Text, codes,
  text_eq, is_empty, length, ltb, get_or, ◌==◌, if◌then◌else◌,
}
use geruest.Prelude.Assoc.{lookup}
use geruest.Security.{escape_json}
use geruest.Json.{JsonParser, JsonArray, json, nil, cons}
use geruest.Json.Numbers.{is_json_number_literal}

unfoldable pub escaped_byte_size : ℕ → ℕ
escaped_byte_size c =
    if c == b'"' || c == b'\\' || c == 8 || c == 12 || c == b'\n' || c == b'\r' || c == b'\t'
    then 2
    else if ltb c 0x20
    then 6
    else 1

-- `escapedJsonSize`
unfoldable pub escaped_json_size : Text → ℕ
unfolding escaped_byte_size
escaped_json_size [] = 0
escaped_json_size (c ∷ input) = escaped_byte_size c + escaped_json_size input

-- A value that is an object or an array as it stands.
unfoldable pub is_nested : Text → Bool
is_nested value = not (is_empty value) && (get_or value 0 0 == b'{' || get_or value 0 0 == b'[')

unfoldable pub is_literal : Text → Bool
is_literal value =
    text_eq value (codes "true") || text_eq value (codes "false") || text_eq value (codes "null")

-- `stringToString`
unfoldable pub string_to_string : Text → Text
string_to_string value = b'"' ∷ escape_json value ++ b'"' ∷ []

unfoldable pub value_text : Text → Text
unfolding is_nested is_literal
value_text value =
    if is_nested value
    then value
    else if is_literal value
    then value
    else if is_json_number_literal value
    then value
    else string_to_string value

unfoldable pub value_size : Text → ℕ
unfolding is_nested is_literal
value_size value =
    if is_nested value
    then length value
    else if is_literal value || is_json_number_literal value
    then length value
    else escaped_json_size value + 2

-- The loop that sums up the sizes.
unfoldable pub members_size : List (Text × Text) → List Text → ℕ
unfolding value_size
members_size values [] = 0
members_size values (key ∷ keys) = elim (lookup key values) [
  | none ↦ members_size values keys
  | some value ↦ (length key + 4 + value_size value) + members_size values keys
]

-- The loop that prints the members.
unfoldable pub members_text : Bool → List (Text × Text) → List Text → Text
unfolding value_text
members_text first values [] = []
members_text first values (key ∷ keys) = elim (lookup key values) [
  | none ↦ members_text first values keys
  | some value ↦
      (if first then [] else b',' ∷ [])
      ++ (b'"' ∷ (key ++ b'"' ∷ b':' ∷ (value_text value ++ members_text false values keys)))
]

unfoldable pub object_text : List (Text × Text) → List Text → Text
unfolding members_text
object_text values keys = b'{' ∷ members_text true values keys ++ b'}' ∷ []

-- The loops that put commas between the texts of the elements.
unfoldable pub comma_separated : List Text → Text
comma_separated [] = []
comma_separated (item ∷ []) = item
comma_separated (item ∷ other ∷ items) = item ++ b',' ∷ comma_separated (other ∷ items)

unfoldable pub array_text : List Text → Text
unfolding comma_separated
array_text items = b'[' ∷ comma_separated items ++ b']' ∷ []

abbrev pub has_elements : JsonArray → Bool
has_elements nil = false
has_elements (cons p elements) = true

unfoldable mutual
  unfolding object_text array_text

  pub to_string : JsonParser → Text
  to_string (json values keys elements ok error) =
      if is_empty values && has_elements elements
      then array_text (element_texts elements)
      else object_text values keys

  pub element_texts : JsonArray → List Text
  element_texts nil = []
  element_texts (cons p elements) = to_string p ∷ element_texts elements

unfoldable pub array_to_string : JsonParser → Text
array_to_string (json values keys elements ok error) = array_text (element_texts elements)

-- The size that `toString` reserves for an object.
unfoldable pub estimated_size : List (Text × Text) → List Text → ℕ
estimated_size values keys = 2 + members_size values keys

-- The size that `setStringArray` reserves.
unfoldable pub items_size : List Text → ℕ
items_size [] = 0
items_size (item ∷ items) = 2 + escaped_json_size item + items_size items

unfoldable pub string_array_size : List Text → ℕ
unfolding items_size
string_array_size items = 2 + (if is_empty items then 0 else length items - 1) + items_size items

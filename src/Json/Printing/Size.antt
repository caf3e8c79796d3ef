-- ===== src/Json/Printing/Size.antt =====
-- src/parser/JSONParser.cpp: the sizes that are reserved for the texts that are printed.
use geruest.Prelude.{
  ℕ, ◌+◌, ◌≤◌, ◌≡◌, refl, Bool, true, false, List, [], ◌∷◌, ◌++◌, Option-cases, inl, inr, Text,
  length, length-append, map, arith,
}
use geruest.Prelude.Assoc.{lookup}
use geruest.Security.{escape_all, escape_json, escape_json_byte, unicode_escape}
use geruest.Json.Printing.{
  escaped_byte_size, escaped_json_size, string_to_string, value_text, value_size, members_size,
  members_text, object_text, comma_separated, array_text, estimated_size, items_size,
  string_array_size,
}

length-escape_json_byte : (c : ℕ) → length (escape_json_byte c) ≡ escaped_byte_size c
unfolding escape_json_byte unicode_escape escaped_byte_size
length-escape_json_byte c = ground arith

-- `escapedJsonSize` is the exact length of what `escapeJson` makes of the text.
pub length-escape_json : (input : Text) → length (escape_json input) ≡ escaped_json_size input
unfolding escape_json escape_all escaped_json_size
length-escape_json [] = refl
length-escape_json (c ∷ input) = omega (
  arith,
  length-append (escape_json_byte c) (escape_all escape_json_byte input),
  length-escape_json_byte c,
  length-escape_json input,
)

length-string_to_string :
    (value : Text) → length (string_to_string value) ≡ escaped_json_size value + 2
unfolding string_to_string
length-string_to_string value =
    omega (arith, length-append (escape_json value) (b'"' ∷ []), length-escape_json value)

length-value_text : (value : Text) → length (value_text value) ≡ value_size value
unfolding value_text value_size
length-value_text value = ground (arith, length-string_to_string value)

length-members_text :
    (first : Bool) (values : List (Text × Text)) (keys : List Text)
    → length (members_text first values keys) ≤ members_size values keys
unfolding members_text members_size
length-members_text first values [] = omega arith
length-members_text first values (key ∷ keys) = elim (Option-cases (lookup key values)) [
  | inl e ↦ rw (members_text, members_size, e) (length-members_text first values keys)
  | inr (value, e) ↦
      let rest = members_text false values keys in
      let whole : length (b'"' ∷ (key ++ b'"' ∷ b':' ∷ (value_text value ++ rest)))
          ≡ length key + 3 + value_size value + length rest =
        omega (
          arith,
          length-append key (b'"' ∷ b':' ∷ (value_text value ++ rest)),
          length-append (value_text value) rest,
          length-value_text value,
        ) in
      rw (members_text, members_size, e)
        (ground (arith, whole, length-members_text false values keys))
]

-- The size that `toString` reserves for an object is at least the length of what it prints.
pub object_text-le-estimated_size :
    (values : List (Text × Text)) (keys : List Text)
    → length (object_text values keys) ≤ estimated_size values keys
unfolding object_text estimated_size
object_text-le-estimated_size values keys = omega (
  arith,
  length-append (members_text true values keys) (b'}' ∷ []),
  length-members_text true values keys,
)

length-items :
    (item : Text) (items : List Text)
    → length (comma_separated (map string_to_string (item ∷ items)))
      ≡ length items + items_size (item ∷ items)
unfolding comma_separated items_size
length-items item [] = omega (arith, length-string_to_string item)
length-items item (other ∷ items) = omega (
  arith,
  length-string_to_string item,
  length-items other items,
  length-append (string_to_string item)
      (b',' ∷ comma_separated (map string_to_string (other ∷ items))),
)

-- The size that `setStringArray` reserves is the exact length of the array's text.
pub length-string_array :
    (items : List Text) → length (array_text (map string_to_string items)) ≡ string_array_size items
unfolding array_text string_array_size
length-string_array [] = unfold comma_separated items_size in refl
length-string_array (item ∷ items) = omega (
  arith,
  length-items item items,
  length-append (comma_separated (map string_to_string (item ∷ items))) (b']' ∷ []),
)

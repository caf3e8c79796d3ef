-- ===== src/Json/Getting.antt =====
-- src/parser/JSONParser.cpp: the functions that read a parser. `std::stof` and its kin are an
-- argument, whose `none` is an exception.
pub mod Stored
use geruest.Prelude.{
  ℕ, ◌+◌, Bool, true, false, ◌&&◌, ◌||◌, List, [], ◌∷◌, Option, none, some, Text, codes, text_eq,
  has_value, map, leb, ◌==◌, if◌then◌else◌,
}
use geruest.Prelude.Assoc.{lookup}
use geruest.Prelude.Int.{ℤ, pos, to_short}
use geruest.Json.{JsonParser, JsonArray, members, keys_of, array_data, empty, nil}
use geruest.Json.Numbers.{parse_integer, int_bound, long_bound}
use geruest.Json.Parsing.{Parsed, parsed, parse_json}
use geruest.Json.Arrays.{parse_array_string, extract_string}

unfoldable pub get_string : JsonParser → Text → Text
get_string p key = elim (lookup key (members p)) [ none ↦ [] | some value ↦ value ]

-- What stands for an exception or a missing key.
abbrev pub or_zero : Option ℤ → ℤ
or_zero none = pos 0
or_zero (some z) = z

-- `getInt`; `getLong` and `getLongLong` with the range of a long.
unfoldable pub get_integer : ℕ → JsonParser → Text → ℤ
get_integer bound p key = elim (lookup key (members p)) [
  | none ↦ pos 0
  | some value ↦ or_zero (parse_integer bound value)
]

unfoldable pub get_int : JsonParser → Text → ℤ
unfolding get_integer
get_int p key = get_integer int_bound p key

unfoldable pub get_long : JsonParser → Text → ℤ
unfolding get_integer
get_long p key = get_integer long_bound p key

unfoldable pub get_short : JsonParser → Text → ℤ
unfolding get_integer
get_short p key = to_short (get_integer int_bound p key)

unfoldable pub get_bool : JsonParser → Text → Bool
get_bool p key = elim (lookup key (members p)) [
  | none ↦ false
  | some value ↦ text_eq value (codes "true") || text_eq value (codes "1")
]

-- The parser of a member, with `rounds` for its loops.
unfoldable pub get_object : ℕ → JsonParser → Text → Parsed
get_object rounds p key = elim (lookup key (members p)) [
  | none ↦ parsed empty
  | some value ↦ parse_json rounds value
]

-- The elements of the array at a key.
unfoldable pub elements_at : JsonParser → Text → List Text
elements_at p key = elim (lookup key (members p)) [
  | none ↦ []
  | some value ↦ parse_array_string value
]

unfoldable pub get_string_array : JsonParser → Text → List Text
unfolding elements_at
get_string_array p key = map extract_string (elements_at p key)

-- The elements that are no numbers, or out of range, are skipped.
unfoldable pub integers : ℕ → List Text → List ℤ
integers bound [] = []
integers bound (item ∷ items) =
    let rest = integers bound items in
    elim (parse_integer bound item) [ none ↦ rest | some z ↦ z ∷ rest ]

unfoldable pub get_int_array : JsonParser → Text → List ℤ
unfolding elements_at integers
get_int_array p key = integers int_bound (elements_at p key)

-- `getLongArray` and `getLongLongArray`.
unfoldable pub get_long_array : JsonParser → Text → List ℤ
unfolding elements_at integers
get_long_array p key = integers long_bound (elements_at p key)

unfoldable pub get_short_array : JsonParser → Text → List ℤ
unfolding elements_at integers
get_short_array p key = map to_short (integers int_bound (elements_at p key))

-- `tolower` in the "C" locale.
abbrev pub lower : ℕ → ℕ
lower c = if leb b'A' c && leb c b'Z' then c + 32 else c

abbrev pub bool_of : Text → Bool
bool_of item = text_eq (map lower item) (codes "true") || text_eq (map lower item) (codes "1")

unfoldable pub get_bool_array : JsonParser → Text → List Bool
unfolding elements_at
get_bool_array p key = map bool_of (elements_at p key)

-- `getArrayOfJSON`
unfoldable pub get_array_of_json : ℕ → JsonParser → Text → List Parsed
unfolding elements_at
get_array_of_json rounds p key = map (parse_json rounds) (elements_at p key)

module _ {F : Type 0} (zero_float : F) (float_of : Text → Option F) where
  -- `getFloat`, `getDouble` and `getLongDouble`.
  unfoldable pub get_float : JsonParser → Text → F
  get_float p key = elim (lookup key (members p)) [
    | none ↦ zero_float
    | some value ↦ elim (float_of value) [ none ↦ zero_float | some x ↦ x ]
  ]

module _ {F : Type 0} (float_of : Text → Option F) where
  unfoldable pub floats : List Text → List F
  floats [] = []
  floats (item ∷ items) =
      let rest = floats items in elim (float_of item) [ none ↦ rest | some x ↦ x ∷ rest ]

  unfoldable pub get_float_array : JsonParser → Text → List F
  unfolding elements_at floats
  get_float_array p key = floats (elements_at p key)

unfoldable pub get_json_array : JsonParser → JsonArray
get_json_array p = array_data p

unfoldable pub get_keys : JsonParser → List Text
get_keys p = keys_of p

unfoldable pub has_key : JsonParser → Text → Bool
has_key p key = has_value (lookup key (members p))

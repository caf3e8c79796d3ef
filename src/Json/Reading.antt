-- ===== src/Json/Reading.antt =====
-- src/parser/JSONParser.cpp: the functions that read one value from the front of the text. Each
-- returns what it read and the text that is left, which stands for the position `jp`.
pub mod Length
use geruest.Prelude.{
  ℕ, ◌+◌, ◌-◌, Bool, true, false, ◌&&◌, ◌||◌, not, [], ◌∷◌, ◌++◌, Text, codes, drop, leb, ◌==◌,
  if◌then◌else◌, starts_with,
}

unfoldable pub is_white_space : ℕ → Bool
is_white_space c = c == b' ' || c == b'\t' || c == b'\n' || c == b'\r'

-- `isdigit`
unfoldable pub is_digit : ℕ → Bool
is_digit c = leb b'0' c && leb c b'9'

-- The loop that stands at the head of each function.
unfoldable pub skip_white_space : Text → Text
skip_white_space [] = []
skip_white_space (c ∷ s) = let rest = skip_white_space s in if is_white_space c then rest else c ∷ s

-- What one more byte of a value is put before.
abbrev pub prepend : ℕ → Text × Text → Text × Text
prepend c r = (c ∷ r.0, r.1)

-- The loop of `readKey` and `readString` behind the opening quote, with `escape`.
unfoldable pub quoted : Bool → Text → Text × Text
quoted escape [] = ([], [])
quoted true (c ∷ s) = prepend c (quoted false s)
quoted false (c ∷ s) = elim (c == b'\\') [
  | true ↦ quoted true s
  | false ↦ elim (c == b'"') [ true ↦ ([], s) | false ↦ prepend c (quoted false s) ]
]

-- The test for the opening quote, behind the white space.
unfoldable pub open_quote : Text → Text × Text
unfolding quoted
open_quote [] = ([], [])
open_quote (c ∷ s) = if c == b'"' then quoted false s else ([], c ∷ s)

unfoldable pub read_key : Text → Text × Text
unfolding open_quote skip_white_space is_white_space
read_key s = open_quote (skip_white_space s)

unfoldable pub read_string : Text → Text × Text
unfolding open_quote skip_white_space is_white_space
read_string s = open_quote (skip_white_space s)

-- The second loop of `readNumber`.
unfoldable pub digits_and_points : Text → Text × Text
unfolding is_digit
digits_and_points [] = ([], [])
digits_and_points (c ∷ s) =
    let more = prepend c (digits_and_points s) in
    if is_digit c || c == b'.' then more else ([], c ∷ s)

-- The test for the sign.
unfoldable pub signed_number : Text → Text × Text
unfolding digits_and_points
signed_number [] = ([], [])
signed_number (c ∷ s) =
    if c == b'-' then prepend c (digits_and_points s) else digits_and_points (c ∷ s)

unfoldable pub read_number : Text → Text × Text
unfolding signed_number skip_white_space is_white_space
read_number s = signed_number (skip_white_space s)

-- The loops of `readNestedObject` and `readNestedArray`, with their brackets, the count of those
-- that are open, `inString` and `escape`. The count is at least 1 behind the first byte, which is
-- the opening bracket in every call.
unfoldable pub nested : ℕ → ℕ → ℕ → Bool → Bool → Text → Text × Text
nested open_ close count in_string escape [] = ([], [])
nested open_ close count in_string true (c ∷ s) =
    prepend c (nested open_ close count in_string false s)
nested open_ close count in_string false (c ∷ s) = elim (c == b'\\') [
  | true ↦ prepend c (nested open_ close count in_string true s)
  | false ↦ elim (c == b'"') [
    | true ↦ prepend c (nested open_ close count (not in_string) false s)
    | false ↦ elim (not in_string && c == open_) [
      | true ↦ prepend c (nested open_ close (count + 1) in_string false s)
      | false ↦ elim (not in_string && c == close) [
        | true ↦ elim (count - 1 == 0) [
          | true ↦ (c ∷ [], s)
          | false ↦ prepend c (nested open_ close (count - 1) in_string false s)
        ]
        | false ↦ prepend c (nested open_ close count in_string false s)
      ]
    ]
  ]
]

unfoldable pub read_nested_object : Text → Text × Text
unfolding nested
read_nested_object s = nested b'{' b'}' 0 false false s

unfoldable pub read_nested_array : Text → Text × Text
unfolding nested
read_nested_array s = nested b'[' b']' 0 false false s

-- The branches of `readData`, by the first byte behind the white space.
unfoldable pub data_at : Text → Text × Text
unfolding read_string read_number read_nested_object read_nested_array
data_at [] = ([], [])
data_at (c ∷ s) =
    if c == b'"'
    then read_string (c ∷ s)
    else if is_digit c || c == b'-'
    then read_number (c ∷ s)
    else if starts_with (codes "true") (c ∷ s)
    then (codes "true", drop 4 (c ∷ s))
    else if starts_with (codes "false") (c ∷ s)
    then (codes "false", drop 5 (c ∷ s))
    else if starts_with (codes "null") (c ∷ s)
    then (codes "null", drop 4 (c ∷ s))
    else if c == b'{'
    then read_nested_object (c ∷ s)
    else if c == b'['
    then read_nested_array (c ∷ s)
    else ([], c ∷ s)

unfoldable pub read_data : Text → Text × Text
unfolding data_at skip_white_space
read_data s = data_at (skip_white_space s)

-- ===== src/Security/Json.antt =====
-- Escaped text as the inside of a JSON string (RFC 8259).
use geruest.Prelude.{
  ℕ, zero, suc, ◌+◌, ◌-◌, ◌*◌, ◌≤◌, ◌≡◌, sym, ap, ◌∙◌, ◌&&◌, [], ◌∷◌, ◌++◌, append_assoc,
  append-nil, Option, none, some, Text, All, ltb, leb, ◌==◌, if◌then◌else◌, arith, All-append,
}
use geruest.Security.{escape_json_byte, escape_all, escape_json}

-- The value of a lower-case hexadecimal digit.
hex_value : ℕ → Option ℕ
hex_value c =
    if leb b'0' c && leb c b'9'
    then some (c - b'0')
    else if leb b'a' c && leb c b'f'
    then some (c - 87)
    else none

-- The byte that a one-letter escape stands for.
letter : ℕ → Option ℕ
letter c =
    if c == b'"'
    then some b'"'
    else if c == b'\\'
    then some b'\\'
    else if c == b'b'
    then some 8
    else if c == b'f'
    then some 12
    else if c == b'n'
    then some 10
    else if c == b'r'
    then some 13
    else if c == b't'
    then some 9
    else none

-- Where a reader of a JSON string stands: between characters, behind a backslash, or behind some
-- digits of `\\uXXXX`, with those that are left and the value so far.
data Mode : Type 0 where
  between escaped : Mode
  digits : ℕ → ℕ → Mode

data Move : Type 0 where
  close refuse : Move
  put : ℕ → Move
  go : Mode → Move

move : Mode → ℕ → Move
unfolding letter hex_value
move between c =
    if c == b'"'
    then close
    else if c == b'\\'
    then go escaped
    else if ltb c 0x20
    then refuse
    else put c
move escaped c =
    if c == b'u' then go (digits 3 0) else elim (letter c) [ none ↦ refuse | some d ↦ put d ]
move (digits zero value) c = elim (hex_value c) [ none ↦ refuse | some d ↦ put (16 * value + d) ]
move (digits (suc left) value) c = elim (hex_value c) [
  | none ↦ refuse
  | some d ↦ go (digits left (16 * value + d))
]

-- Reads a JSON string behind its opening quote, up to the closing one: its characters, and the
-- text behind it.
read_string : Mode → Text → Text → Option (Text × Text)
read_string m out [] = none
read_string m out (c ∷ s) = elim (move m c) [
  | close ↦ some (out, s)
  | refuse ↦ none
  | put d ↦ read_string between (out ++ d ∷ []) s
  | go m' ↦ read_string m' out s
]

pub parse_string : Text → Option (Text × Text)
unfolding read_string move
parse_string = read_string between []

read_escape_json_byte :
    (c : ℕ) (out rest : Text)
    → read_string between out (escape_json_byte c ++ rest)
      ≡ read_string between (out ++ c ∷ []) rest
unfolding read_string move escape_json_byte
read_escape_json_byte c out rest = ground arith

read_escape_json :
    (input out rest : Text)
    → read_string between out (escape_all escape_json_byte input ++ b'"' ∷ rest)
      ≡ some (out ++ input, rest)
unfolding read_string move escape_all
read_escape_json [] out rest = ap (λ t. some (t, rest)) (sym (append-nil out))
read_escape_json (c ∷ input) out rest =
    ap (read_string between out)
      (append_assoc (escape_json_byte c) (escape_all escape_json_byte input) (b'"' ∷ rest))
    ∙ read_escape_json_byte c out (escape_all escape_json_byte input ++ b'"' ∷ rest)
    ∙ read_escape_json input (out ++ c ∷ []) rest
    ∙ ap (λ t. some (t, rest)) (append_assoc out (c ∷ []) input)

-- Between quotes, the escaped text is read by a JSON reader as the input, and the string ends at
-- the closing quote and nowhere before it.
pub parse-escape_json :
    (input rest : Text) → parse_string (escape_json input ++ b'"' ∷ rest) ≡ some (input, rest)
unfolding parse_string escape_json
parse-escape_json input rest = read_escape_json input [] rest

escape_json_byte_printable : (c : ℕ) → All (λ d. 0x20 ≤ d) (escape_json_byte c)
unfolding escape_json_byte
escape_json_byte_printable c = ground arith

-- The escaped text holds no control character.
escape_json_printable : (input : Text) → All (λ d. 0x20 ≤ d) (escape_json input)
unfolding escape_json escape_all
escape_json_printable input = all input
  where
    all : (s : Text) → All (λ d. 0x20 ≤ d) (escape_all escape_json_byte s)
    all [] = tt
    all (c ∷ s) =
        All-append (λ d. 0x20 ≤ d) (escape_json_byte c) (escape_all escape_json_byte s)
          (escape_json_byte_printable c) (all s)

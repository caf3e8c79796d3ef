-- ===== src/Json/Arrays.antt =====
-- src/parser/JSONParser.cpp: `parseArrayString` and `extractString`.
pub mod RoundTrip
use mathlib.Core.List.{reverse}
use geruest.Prelude.{
  ℕ, ◌+◌, ◌-◌, Bool, true, false, ◌&&◌, not, List, [], ◌∷◌, ◌++◌, Text, is_empty, length, take,
  drop, get_or, ltb, leb, ◌==◌, if◌then◌else◌,
}
use geruest.Json.Reading.{skip_white_space}

-- `find_first_not_of` and `find_last_not_of` of white space.
unfoldable pub trimmed : Text → Text
unfolding skip_white_space
trimmed current = reverse (skip_white_space (reverse (skip_white_space current)))

-- The state of the loop. `braceDepth` is signed: it is the count of the braces that were opened
-- less that of those that were closed.
pub record Scan : Type 0 where
  pub in_string : Bool
  pub escape : Bool
  pub bracket_depth : ℕ
  pub opened : ℕ
  pub closed : ℕ
  pub current : Text

abbrev pub start : Scan
start = record {
  in_string = false;
  escape = false;
  bracket_depth = 0;
  opened = 0;
  closed = 0;
  current = [];
}

-- What a byte does to the state: it is scanned, or it ends an element, or the array.
pub data ScanStep : Type 0 where
  scanned : Scan → ScanStep
  element_done : Scan → ScanStep
  array_done : ScanStep

unfoldable pub scan_byte : ℕ → Scan → ScanStep
scan_byte c s =
    let next = record s { current = s.current ++ c ∷ [] } in
    if s.escape
    then scanned (record next { escape = false })
    else if c == b'\\'
    then scanned (record next { escape = true })
    else if c == b'"'
    then scanned (record next { in_string = not s.in_string })
    else if s.in_string
    then scanned next
    else if c == b'['
    then scanned (record next { bracket_depth = s.bracket_depth + 1 })
    else if c == b']'
    then (if ltb 0 s.bracket_depth
        then scanned (record next { bracket_depth = s.bracket_depth - 1 })
        else array_done)
    else if c == b'{'
    then scanned (record next { opened = s.opened + 1 })
    else if c == b'}'
    then scanned (record next { closed = s.closed + 1 })
    else if c == b',' && s.bracket_depth == 0 && s.opened == s.closed
    then element_done (record s { current = [] })
    else scanned next

-- `result.push_back`, of an element that is not all white space.
unfoldable pub push_element : Text → List Text → List Text
push_element current result =
    if is_empty (trimmed current) then result else trimmed current ∷ result

-- The loop; what it leaves in `current` at the end of the text is no element.
unfoldable pub scan_elements : Scan → Text → List Text
unfolding scan_byte push_element
scan_elements s [] = []
scan_elements s (c ∷ rest) = elim (scan_byte c s) [
  | scanned s' ↦ scan_elements s' rest
  | element_done s' ↦ push_element s.current (scan_elements s' rest)
  | array_done ↦ push_element s.current []
]

unfoldable pub parse_array_string : Text → List Text
unfolding scan_elements
parse_array_string [] = []
parse_array_string (c ∷ rest) = if c == b'[' then scan_elements start rest else []

-- `extractString`
unfoldable pub extract_string : Text → Text
extract_string s =
    if leb 2 (length s) && get_or s 0 0 == b'"' && get_or s (length s - 1) 0 == b'"'
    then take (length s - 2) (drop 1 s)
    else s

-- ===== src/Http.antt =====
-- Requests on the wire: src/data/HTTPRequest.cpp and src/handler/HttpFraming.cpp. The functions on
-- texts that both use.
pub mod Chunked
pub mod Headers
pub mod Request
pub mod Framing
pub mod Response
mod Tests
use mathlib.Core.List.{reverse}
use geruest.Prelude.{
  ℕ, ◌+◌, Bool, true, false, ◌&&◌, ◌||◌, not, List, [], ◌∷◌, ◌++◌, Option, none, some, Text,
  text_eq, is_empty, length, drop, map, ltb, leb, ◌==◌, if◌then◌else◌, starts_with,
}

-- `isspace` in the "C" locale.
unfoldable pub is_space : ℕ → Bool
is_space c = c == b' ' || (leb 9 c && leb c 13)

-- `asciiLower`
unfoldable pub ascii_lower : ℕ → ℕ
ascii_lower c = if leb b'A' c && leb c b'Z' then c + 32 else c

-- The first loop of `trimSv`.
unfoldable pub trim_start : Text → Text
trim_start [] = []
trim_start (c ∷ s) = let rest = trim_start s in if is_space c then rest else c ∷ s

unfoldable pub trim_sv : Text → Text
unfolding trim_start is_space
trim_sv s = reverse (trim_start (reverse (trim_start s)))

-- `find(needle)`: the first position at which the text stands.
unfoldable pub find_text : Text → Text → Option ℕ
find_text needle [] = if is_empty needle then some 0 else none
find_text needle (c ∷ s) = elim (starts_with needle (c ∷ s)) [
  | true ↦ some 0
  | false ↦ elim (find_text needle s) [ none ↦ none | some n ↦ some (n + 1) ]
]

-- `find(needle, pos)`
unfoldable pub find_text_from : Text → Text → ℕ → Option ℕ
unfolding find_text
find_text_from needle s pos =
    if ltb (length s) pos
    then none
    else elim (find_text needle (drop pos s)) [ none ↦ none | some n ↦ some (pos + n) ]

-- What a byte is put in front of.
abbrev pub push_byte : ℕ → List Text → List Text
push_byte c [] = (c ∷ []) ∷ []
push_byte c (piece ∷ pieces) = (c ∷ piece) ∷ pieces

-- The pieces between the bytes `d`, as the loops that cut off one piece in each round see them. A
-- piece behind a last `d` is empty, and those loops pass over an empty piece.
unfoldable pub split_on : ℕ → Text → List Text
split_on d [] = [] ∷ []
split_on d (c ∷ s) = if c == d then [] ∷ split_on d s else push_byte c (split_on d s)

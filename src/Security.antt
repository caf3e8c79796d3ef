-- ===== src/Security.antt =====
-- src/security/Security.cpp: escaping for JSON, HTML and SQL, and the query builder.
pub mod Json
pub mod Html
pub mod Sql
pub mod Query
mod Tests
use geruest.Prelude.{
  ℕ, ◌+◌, ◌/◌, ◌%◌, Bool, true, false, ◌&&◌, List, [], ◌∷◌, ◌++◌, Option, none, some, Text, codes,
  length, ltb, ◌==◌, if◌then◌else◌,
}

-- A digit of `%04x`.
unfoldable pub hex_digit : ℕ → ℕ
hex_digit n = if ltb n 10 then b'0' + n else 87 + n

-- `snprintf(buf, 7, "\\u%04x", c)` of a byte.
unfoldable pub unicode_escape : ℕ → Text
unicode_escape c = b'\\' ∷ b'u' ∷ b'0' ∷ b'0' ∷ hex_digit (c / 16) ∷ hex_digit (c % 16) ∷ []

-- The switch of `escapeJson`.
unfoldable pub escape_json_byte : ℕ → Text
unfolding unicode_escape hex_digit
escape_json_byte c =
    if c == b'"'
    then b'\\' ∷ b'"' ∷ []
    else if c == b'\\'
    then b'\\' ∷ b'\\' ∷ []
    else if c == 8
    then b'\\' ∷ b'b' ∷ []
    else if c == 12
    then b'\\' ∷ b'f' ∷ []
    else if c == b'\n'
    then b'\\' ∷ b'n' ∷ []
    else if c == b'\r'
    then b'\\' ∷ b'r' ∷ []
    else if c == b'\t'
    then b'\\' ∷ b't' ∷ []
    else if ltb c 0x20
    then unicode_escape c
    else c ∷ []

-- The loop `for (c : input) result += …` of the three functions.
unfoldable pub escape_all : (ℕ → Text) → Text → Text
escape_all escape [] = []
escape_all escape (c ∷ input) = escape c ++ escape_all escape input

unfoldable pub escape_json : Text → Text
escape_json input = escape_all escape_json_byte input

-- The switch of `escapeHtml`.
pub escape_html_byte : ℕ → Text
escape_html_byte c =
    if c == b'&'
    then codes "&amp;"
    else if c == b'<'
    then codes "&lt;"
    else if c == b'>'
    then codes "&gt;"
    else if c == b'"'
    then codes "&quot;"
    else if c == b'\''
    then codes "&#x27;"
    else c ∷ []

pub escape_html : Text → Text
escape_html input = escape_all escape_html_byte input

-- The switch of `escapeSql`.
pub escape_sql_byte : ℕ → Text
escape_sql_byte c =
    if c == b'\''
    then b'\'' ∷ b'\'' ∷ []
    else if c == b'"'
    then b'\\' ∷ b'"' ∷ []
    else if c == b'\\'
    then b'\\' ∷ b'\\' ∷ []
    else if c == 0
    then b'\\' ∷ b'0' ∷ []
    else if c == 0x1a
    then b'\\' ∷ b'Z' ∷ []
    else c ∷ []

pub escape_sql : Text → Text
escape_sql input = escape_all escape_sql_byte input

-- The count of placeholders.
unfoldable pub placeholder_count : Text → ℕ
placeholder_count [] = 0
placeholder_count (c ∷ template) =
    let rest = placeholder_count template in if c == b'?' then rest + 1 else rest

-- The second loop of `buildQuery`; `params` are those that are left. The code indexes them
-- unchecked; past their end the model puts in an empty value.
pub substitute_params : Text → List Text → Text
substitute_params [] params = []
substitute_params (c ∷ template) [] =
    (if c == b'?' then b'\'' ∷ b'\'' ∷ [] else c ∷ []) ++ substitute_params template []
substitute_params (c ∷ template) (p ∷ params) = elim (c == b'?') [
  | true ↦ b'\'' ∷ (escape_sql p ++ b'\'' ∷ substitute_params template params)
  | false ↦ c ∷ substitute_params template (p ∷ params)
]

-- `none` is the exception `std::invalid_argument`.
pub build_query : Text → List Text → Option Text
build_query template params =
    if placeholder_count template == length params
    then some (substitute_params template params)
    else none

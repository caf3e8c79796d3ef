-- ===== src/Security/Sql.antt =====
-- Escaped text as the inside of an SQL string literal, in the two dialects that the code speaks
-- of: in one a backslash is a character like any other, in the other it escapes the next one.
use geruest.Prelude.{
  ℕ, ◌+◌, ◌≤◌, ◌<◌, ◌≡◌, ◌≢◌, refl, sym, ap, ◌∙◌, Bool, true, false, ◌&&◌, ◌||◌, [], ◌∷◌, ◌++◌,
  append_assoc, append-nil, length, length-append, Bool-cases, Option, none, some, Text, get_or,
  ◌==◌, if◌then◌else◌, inl, inr, arith,
}
use geruest.Security.{escape_sql_byte, escape_all, escape_sql}

pub data Dialect : Type 0 where
  ansi mysql : Dialect

data Mode : Type 0 where
  inside escaped closed : Mode

is_mysql : Dialect → Bool
is_mysql ansi = false
is_mysql mysql = true

mode_at : Dialect → ℕ → Mode
unfolding is_mysql
mode_at d c = if c == b'\'' then closed else if is_mysql d && c == b'\\' then escaped else inside

-- The byte that an escape of MySQL stands for.
unescape : ℕ → ℕ
unescape c = if c == b'0' then 0 else if c == b'Z' then 0x1a else c

-- Reads a literal behind its opening quote: its value, and the text behind its closing quote. Two
-- quotes in a row are one quote of the value.
read_literal : Dialect → Mode → Text → Text → Option (Text × Text)
read_literal d closed out [] = some (out, [])
read_literal d inside out [] = none
read_literal d escaped out [] = none
read_literal d closed out (c ∷ s) = elim (c == b'\'') [
  | true ↦ read_literal d inside (out ++ c ∷ []) s
  | false ↦ some (out, c ∷ s)
]
read_literal d escaped out (c ∷ s) = read_literal d inside (out ++ unescape c ∷ []) s
read_literal d inside out (c ∷ s) = elim (mode_at d c) [
  | inside ↦ read_literal d inside (out ++ c ∷ []) s
  | m ↦ read_literal d m out s
]

pub parse_literal : Dialect → Text → Option (Text × Text)
parse_literal d = read_literal d inside []

-- The value that a dialect reads for one byte: in MySQL the byte, in ANSI SQL the escape as it
-- stands, with the quote undoubled.
abbrev read_byte : Dialect → ℕ → Text
read_byte mysql c = c ∷ []
read_byte ansi c = if c == b'\'' then c ∷ [] else escape_sql_byte c

abbrev pub read_value : Dialect → Text → Text
read_value d [] = []
read_value d (c ∷ s) = read_byte d c ++ read_value d s

-- The text behind a literal, which does not begin with a quote.
abbrev pub EndsLiteral : Text → Type 0
EndsLiteral rest = get_or rest 0 0 ≢ b'\''

read_escape_sql_byte :
    (d : Dialect) (c : ℕ) (out rest : Text)
    → read_literal d inside out (escape_sql_byte c ++ rest)
      ≡ read_literal d inside (out ++ read_byte d c) rest
unfolding read_literal escape_sql_byte mode_at unescape
read_escape_sql_byte mysql c out rest = ground arith
read_escape_sql_byte ansi c out rest = ground (
  arith,
  append_assoc out (b'\\' ∷ []) (b'"' ∷ []),
  append_assoc out (b'\\' ∷ []) (b'\\' ∷ []),
  append_assoc out (b'\\' ∷ []) (b'0' ∷ []),
  append_assoc out (b'\\' ∷ []) (b'Z' ∷ []),
)

read_end :
    (d : Dialect) (out rest : Text)
    → EndsLiteral rest
    → read_literal d closed out rest ≡ some (out, rest)
unfolding read_literal
read_end d out [] h = refl
read_end d out (c ∷ rest) h = ground arith

read_escape_all :
    (d : Dialect) (input out rest : Text)
    → EndsLiteral rest
    → read_literal d inside out (escape_all escape_sql_byte input ++ b'\'' ∷ rest)
      ≡ some (out ++ read_value d input, rest)
unfolding escape_all
read_escape_all d [] out rest h =
    (unfold read_literal mode_at in ground (arith, read_end d out rest h, append-nil out))
read_escape_all d (c ∷ input) out rest h =
    ap (read_literal d inside out)
      (append_assoc (escape_sql_byte c) (escape_all escape_sql_byte input) (b'\'' ∷ rest))
    ∙ read_escape_sql_byte d c out (escape_all escape_sql_byte input ++ b'\'' ∷ rest)
    ∙ read_escape_all d input (out ++ read_byte d c) rest h
    ∙ ap (λ t. some (t, rest)) (append_assoc out (read_byte d c) (read_value d input))

-- In both dialects the literal around an escaped value ends at its closing quote and nowhere
-- before it, whatever the value is.
pub parse-escape_sql :
    (d : Dialect) (input rest : Text)
    → EndsLiteral rest
    → parse_literal d (escape_sql input ++ b'\'' ∷ rest) ≡ some (read_value d input, rest)
unfolding parse_literal escape_sql
parse-escape_sql d input rest h = read_escape_all d input [] rest h

read_value_mysql : (input : Text) → read_value mysql input ≡ input
read_value_mysql [] = refl
read_value_mysql (c ∷ input) = ap (◌∷◌ c) (read_value_mysql input)

-- Where a backslash escapes, the value that is read is the one that was escaped.
parse-escape_sql_mysql :
    (input rest : Text)
    → EndsLiteral rest
    → parse_literal mysql (escape_sql input ++ b'\'' ∷ rest) ≡ some (input, rest)
parse-escape_sql_mysql input rest h =
    parse-escape_sql mysql input rest h ∙ ap (λ t. some (t, rest)) (read_value_mysql input)

-- A byte whose escape ANSI SQL reads as two bytes.
abbrev is_changed : ℕ → Bool
is_changed c = c == b'"' || c == b'\\' || c == 0 || c == 0x1a

abbrev pub has_changed : Text → Bool
has_changed [] = false
has_changed (c ∷ s) = is_changed c || has_changed s

length-read_byte :
    (c : ℕ)
    → (1 ≤ length (read_byte ansi c)) × (is_changed c ≡ true → length (read_byte ansi c) ≡ 2)
unfolding escape_sql_byte
length-read_byte c = ground arith

length-read_value :
    (s : Text)
    → (length s ≤ length (read_value ansi s))
      × (has_changed s ≡ true → length s < length (read_value ansi s))
length-read_value [] = (omega arith, λ h. cc)
length-read_value (c ∷ s) =
    let both : length (read_byte ansi c ++ read_value ansi s)
        ≡ length (read_byte ansi c) + length (read_value ansi s) =
      length-append (read_byte ansi c) (read_value ansi s) in
    let (some_byte, two) = length-read_byte c in
    let (kept, longer) = length-read_value s in
    (
      omega (arith, both, some_byte, kept),
      λ h. elim (Bool-cases (is_changed c)) [
        | inl hit ↦ let two' = two hit in omega (arith, both, two', kept)
        | inr miss ↦ let more = longer (ground arith) in omega (arith, both, some_byte, more)
      ],
    )

-- In ANSI SQL every value with a double quote, a backslash, a NUL or a Ctrl-Z somewhere in it is
-- read back changed.
pub parse-escape_sql_ansi_changes :
    (input rest : Text)
    → EndsLiteral rest
    → has_changed input ≡ true
    → parse_literal ansi (escape_sql input ++ b'\'' ∷ rest) ≢ some (input, rest)
parse-escape_sql_ansi_changes input rest h k e =
    let same : read_value ansi input ≡ input =
      ap (λ r. elim r [ none ↦ [] | some (t, s) ↦ t ])
        (sym (parse-escape_sql ansi input rest h) ∙ e) in
    let longer = (length-read_value input).1 k in omega (arith, longer, ap length same)

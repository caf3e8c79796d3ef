-- ===== src/Json/Numbers.antt =====
-- src/parser/JSONParser.cpp: `isJsonNumberLiteral`, and the decimal numbers of `std::to_string` and
-- `std::stoi`, `std::stol` and `std::stoll`, in base 10 and the "C" locale.
pub mod Decimal
use geruest.Prelude.{
  ℕ, zero, suc, ◌+◌, ◌-◌, ◌*◌, ◌/◌, ◌%◌, ◌^◌, Bool, true, false, ◌&&◌, ◌||◌, not, [], ◌∷◌, ◌++◌,
  Option, none, some, Text, is_empty, ltb, leb, ◌==◌, if◌then◌else◌,
}
use geruest.Prelude.Int.{ℤ, pos, negsuc, neg}
use geruest.Json.Reading.{is_digit}

-- `while (i < n && isdigit(s[i])) ++i;`
unfoldable pub skip_digits : Text → Text
skip_digits [] = []
skip_digits (c ∷ s) = let rest = skip_digits s in if is_digit c then rest else c ∷ s

abbrev pub begins_with_digit : Text → Bool
begins_with_digit [] = false
begins_with_digit (c ∷ s) = is_digit c

-- At least one digit, and nothing behind the digits.
abbrev pub only_digits : Text → Bool
only_digits s = begins_with_digit s && is_empty (skip_digits s)

-- The digits of the exponent, behind its sign.
unfoldable pub exponent_digits : Text → Bool
exponent_digits [] = false
exponent_digits (c ∷ s) = if c == b'+' || c == b'-' then only_digits s else only_digits (c ∷ s)

unfoldable pub exponent : Text → Bool
unfolding exponent_digits
exponent [] = true
exponent (c ∷ s) = if c == b'e' || c == b'E' then exponent_digits s else false

unfoldable pub fraction : Text → Bool
unfolding exponent
fraction [] = true
fraction (c ∷ s) =
    if c == b'.' then begins_with_digit s && exponent (skip_digits s) else exponent (c ∷ s)

unfoldable pub unsigned_literal : Text → Bool
unfolding fraction
unsigned_literal [] = false
unsigned_literal (c ∷ s) =
    if c == b'0'
    then not (begins_with_digit s) && fraction s
    else if is_digit c
    then fraction (skip_digits s)
    else false

unfoldable pub is_json_number_literal : Text → Bool
unfolding unsigned_literal
is_json_number_literal [] = false
is_json_number_literal (c ∷ s) = if c == b'-' then unsigned_literal s else unsigned_literal (c ∷ s)

-- The decimal digits of a number below 10 ^ count.
unfoldable pub digits : ℕ → ℕ → Text
digits zero n = []
digits (suc count) n = elim (ltb n 10) [
  | true ↦ (b'0' + n) ∷ []
  | false ↦ digits count (n / 10) ++ (b'0' + n % 10) ∷ []
]

unfoldable pub decimal : ℕ → Text
unfolding digits
decimal n = digits (n + 1) n

unfoldable pub int_to_string : ℤ → Text
unfolding decimal
int_to_string (pos n) = decimal n
int_to_string (negsuc n) = b'-' ∷ decimal (n + 1)

-- The digits at the front, read from `value` on; what stands behind them is not read.
unfoldable pub digits_value : ℕ → Text → ℕ
digits_value value [] = value
digits_value value (c ∷ s) = if is_digit c then digits_value (value * 10 + (c - b'0')) s else value

-- The range of the type is from -bound to bound - 1; `none` is an exception.
abbrev pub in_bound : ℕ → Bool → ℕ → Option ℤ
in_bound bound negative n =
    if negative
    then (if leb n bound then some (neg n) else none)
    else (if ltb n bound then some (pos n) else none)

abbrev pub magnitude : ℕ → Bool → Text → Option ℤ
magnitude bound negative s =
    if begins_with_digit s then in_bound bound negative (digits_value 0 s) else none

-- The white space of `isspace` in front.
unfoldable pub skip_space : Text → Text
skip_space [] = []
skip_space (c ∷ s) =
    let rest = skip_space s in if c == b' ' || (leb 9 c && leb c 13) then rest else c ∷ s

unfoldable pub signed_value : ℕ → Text → Option ℤ
signed_value bound [] = none
signed_value bound (c ∷ s) =
    if c == b'-'
    then magnitude bound true s
    else if c == b'+'
    then magnitude bound false s
    else magnitude bound false (c ∷ s)

unfoldable pub parse_integer : ℕ → Text → Option ℤ
unfolding signed_value skip_space digits_value
parse_integer bound s = signed_value bound (skip_space s)

-- `int` and `long`.
abbrev pub int_bound : ℕ
int_bound = 2 ^ 31

abbrev pub long_bound : ℕ
long_bound = 2 ^ 63

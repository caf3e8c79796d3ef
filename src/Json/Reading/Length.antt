-- ===== src/Json/Reading/Length.antt =====
-- src/parser/JSONParser.cpp: the length of the text that the readers leave.
use geruest.Prelude.{
  ℕ, ◌+◌, ◌-◌, ◌<◌, ◌≤◌, ◌≡◌, Bool, true, false, ◌||◌, not, [], ◌∷◌, Text, codes, drop, is_empty,
  length, length-drop, ◌==◌, starts_with, if_elim, arith,
}
use geruest.Json.Reading.{
  is_digit, skip_white_space, quoted, open_quote, read_key, read_string, digits_and_points,
  signed_number, read_number, nested, read_nested_object, read_nested_array, data_at, read_data,
}

pub skip_white_space-le : (s : Text) → length (skip_white_space s) ≤ length s
unfolding skip_white_space
skip_white_space-le [] = omega arith
skip_white_space-le (c ∷ s) = ground (arith, skip_white_space-le s)

quoted-le : (escape : Bool) (s : Text) → length (quoted escape s).1 ≤ length s
unfolding quoted
quoted-le escape [] = omega arith
quoted-le true (c ∷ s) = omega (arith, quoted-le false s)
quoted-le false (c ∷ s) = ground (arith, quoted-le true s, quoted-le false s)

open_quote-le : (s : Text) → length (open_quote s).1 ≤ length s
unfolding open_quote
open_quote-le [] = omega arith
open_quote-le (c ∷ s) = ground (arith, quoted-le false s)

open_quote-lt : (s : Text) → is_empty (open_quote s).0 ≡ false → length (open_quote s).1 < length s
unfolding open_quote
open_quote-lt [] h = cc
open_quote-lt (c ∷ s) h = ground (arith, quoted-le false s)

pub read_key-lt : (s : Text) → is_empty (read_key s).0 ≡ false → length (read_key s).1 < length s
unfolding read_key
read_key-lt s h = omega (arith, open_quote-lt (skip_white_space s) h, skip_white_space-le s)

digits_and_points-le : (s : Text) → length (digits_and_points s).1 ≤ length s
unfolding digits_and_points
digits_and_points-le [] = omega arith
digits_and_points-le (c ∷ s) = ground (arith, digits_and_points-le s)

signed_number-le : (s : Text) → length (signed_number s).1 ≤ length s
unfolding signed_number
signed_number-le [] = omega arith
signed_number-le (c ∷ s) = ground (arith, digits_and_points-le s, digits_and_points-le (c ∷ s))

nested-le :
    (open_ close count : ℕ) (in_string escape : Bool) (s : Text)
    → length (nested open_ close count in_string escape s).1 ≤ length s
unfolding nested
nested-le open_ close count in_string escape [] = omega arith
nested-le open_ close count in_string true (c ∷ s) =
    omega (arith, nested-le open_ close count in_string false s)
nested-le open_ close count in_string false (c ∷ s) = ground (
  arith,
  nested-le open_ close count in_string true s,
  nested-le open_ close count (not in_string) false s,
  nested-le open_ close (count + 1) in_string false s,
  nested-le open_ close (count - 1) in_string false s,
  nested-le open_ close count in_string false s,
)

read_string-le : (s : Text) → length (read_string s).1 ≤ length s
unfolding read_string
read_string-le s = omega (arith, open_quote-le (skip_white_space s), skip_white_space-le s)

read_number-le : (s : Text) → length (read_number s).1 ≤ length s
unfolding read_number
read_number-le s = omega (arith, signed_number-le (skip_white_space s), skip_white_space-le s)

data_at-le : (s : Text) → length (data_at s).1 ≤ length s
unfolding data_at read_nested_object read_nested_array
data_at-le [] = omega arith
data_at-le (c ∷ s) =
    if_elim Kept (c == b'"') _ _ (λ _. read_string-le (c ∷ s))
      λ _.
        if_elim Kept (is_digit c || c == b'-') _ _ (λ _. read_number-le (c ∷ s))
          λ _.
            if_elim Kept (starts_with (codes "true") (c ∷ s)) _ _ (λ _. dropped 4)
              λ _.
                if_elim Kept (starts_with (codes "false") (c ∷ s)) _ _ (λ _. dropped 5)
                  λ _.
                    if_elim Kept (starts_with (codes "null") (c ∷ s)) _ _ (λ _. dropped 4)
                      λ _.
                        if_elim Kept (c == b'{') _ _
                          (λ _. nested-le b'{' b'}' 0 false false (c ∷ s))
                          λ _.
                            if_elim Kept (c == b'[') _ _
                              (λ _. nested-le b'[' b']' 0 false false (c ∷ s)) λ _. omega arith
  where
    Kept : Text × Text → Type 0
    Kept r = length r.1 ≤ length (c ∷ s)

    dropped : (n : ℕ) → length (drop n (c ∷ s)) ≤ length (c ∷ s)
    dropped n = omega (arith, length-drop n (c ∷ s))

pub read_data-le : (s : Text) → length (read_data s).1 ≤ length s
unfolding read_data
read_data-le s = omega (arith, data_at-le (skip_white_space s), skip_white_space-le s)

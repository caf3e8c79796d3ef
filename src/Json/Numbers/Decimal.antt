-- ===== src/Json/Numbers/Decimal.antt =====
-- src/parser/JSONParser.cpp: the decimal texts of numbers and their values.
use geruest.Prelude.{
  ℕ, zero, suc, ◌+◌, ◌-◌, ◌*◌, ◌/◌, ◌%◌, ◌<◌, ◌≡◌, ◌∙◌, true, false, [], ◌∷◌, ◌++◌, some, Text, All,
  All-append, ltb, Bool-cases, inl, inr, arith,
}
use geruest.Prelude.Int.{ℤ, pos, negsuc, IsInRange}
use geruest.Json.Reading.{is_digit}
use geruest.Json.Numbers.{
  digits, decimal, int_to_string, digits_value, begins_with_digit, magnitude, skip_space,
  signed_value, parse_integer,
}

digits_value-snoc :
    (value d : ℕ) (s : Text)
    → All (λ c. is_digit c ≡ true) s
    → d < 10
    → digits_value value (s ++ (b'0' + d) ∷ []) ≡ digits_value value s * 10 + d
unfolding digits_value is_digit
digits_value-snoc value d [] h lt = ground arith
digits_value-snoc value d (c ∷ s) (e, h) lt =
    ground (arith, digits_value-snoc (value * 10 + (c - b'0')) d s h lt)

pub digits-All : (count n : ℕ) → All (λ c. is_digit c ≡ true) (digits count n)
unfolding digits is_digit
digits-All zero n = tt
digits-All (suc count) n = elim (Bool-cases (ltb n 10)) [
  | inl small ↦ rw (digits, small) (ground arith)
  | inr large ↦
      rw (digits, large)
        (All-append (λ c. is_digit c ≡ true) (digits count (n / 10)) ((b'0' + n % 10) ∷ [])
          (digits-All count (n / 10)) (ground arith))
]

digits_value-digits : (count n : ℕ) → n < count → digits_value 0 (digits count n) ≡ n
unfolding digits
digits_value-digits zero n h = absurd (omega arith)
digits_value-digits (suc count) n h = elim (Bool-cases (ltb n 10)) [
  | inl small ↦ rw (digits, small) (unfold digits_value is_digit in ground arith)
  | inr large ↦
      rw (digits, large)
        (omega (
          arith,
          digits_value-snoc 0 (n % 10) (digits count (n / 10)) (digits-All count (n / 10))
              (omega arith),
          digits_value-digits count (n / 10) (ground arith),
        ))
]

begins_with_digit-digits : (count n : ℕ) → n < count → begins_with_digit (digits count n) ≡ true
unfolding digits is_digit
begins_with_digit-digits zero n h = absurd (omega arith)
begins_with_digit-digits (suc count) n h = elim (Bool-cases (ltb n 10)) [
  | inl small ↦ rw (digits, small) (ground arith)
  | inr large ↦
      rw (digits, large)
        (snoc (digits count (n / 10)) (begins_with_digit-digits count (n / 10) (ground arith)))
]
  where
    snoc :
        (s : Text)
        → begins_with_digit s ≡ true
        → begins_with_digit (s ++ (b'0' + n % 10) ∷ []) ≡ true
    snoc [] e = cc
    snoc (c ∷ s) e = e

-- A digit is no sign and no space.
plain :
    (bound : ℕ) (s : Text)
    → begins_with_digit s ≡ true
    → parse_integer bound s ≡ magnitude bound false s
unfolding parse_integer signed_value skip_space is_digit
plain bound [] h = cc
plain bound (c ∷ s) h = ground arith

-- A number in the range of its type is read back from the text that is written for it.
pub parse_integer-int_to_string :
    (bound : ℕ) (z : ℤ) → IsInRange bound z → parse_integer bound (int_to_string z) ≡ some z
unfolding int_to_string decimal
parse_integer-int_to_string bound (pos n) h =
    let number = begins_with_digit-digits (n + 1) n (omega arith) in
    let value = digits_value-digits (n + 1) n (omega arith) in
    plain bound (digits (n + 1) n) number ∙ rw (number, value) (ground arith)
parse_integer-int_to_string bound (negsuc n) h =
    let number = begins_with_digit-digits (n + 1 + 1) (n + 1) (omega arith) in
    let value = digits_value-digits (n + 1 + 1) (n + 1) (omega arith) in
    unfold parse_integer signed_value skip_space in rw (number, value) (ground arith)

-- ===== src/Http/Request/Decoding.antt =====
-- src/data/HTTPRequest.cpp: what `urlDecode` makes of an encoded text.
use geruest.Prelude.{
  ℕ, ◌+◌, ◌-◌, ◌/◌, ◌%◌, ◌<◌, ◌≡◌, refl, ap, ◌∙◌, Bool, true, false, ◌&&◌, ◌||◌, [], ◌∷◌, ◌++◌,
  some, Text, All, ltb, leb, ◌==◌, if◌then◌else◌, Bool-cases, inl, inr, arith,
}
use geruest.Http.Chunked.{hex_value}
use geruest.Http.Request.{hex_pair, url_decode}

-- A digit in the form of RFC 3986.
unfoldable upper_digit : ℕ → ℕ
upper_digit n = if ltb n 10 then b'0' + n else b'A' - 10 + n

-- The bytes that RFC 3986 calls unreserved.
unfoldable is_unreserved : ℕ → Bool
is_unreserved c =
    (leb b'0' c && leb c b'9')
    || (leb b'A' c && leb c b'Z')
    || (leb b'a' c && leb c b'z')
    || c == b'-'
    || c == b'.'
    || c == b'_'
    || c == b'~'

-- The percent-encoding of a byte and of a text, where a space may be a plus.
unfoldable pub encode_byte : ℕ → Text
unfolding upper_digit is_unreserved
encode_byte c =
    if is_unreserved c
    then c ∷ []
    else if c == b' '
    then b'+' ∷ []
    else b'%' ∷ upper_digit (c / 16) ∷ upper_digit (c % 16) ∷ []

unfoldable pub url_encode : Text → Text
unfolding encode_byte
url_encode [] = []
url_encode (c ∷ s) = encode_byte c ++ url_encode s

hex_value-upper_digit : (n : ℕ) → n < 16 → hex_value (upper_digit n) ≡ some n
unfolding hex_value upper_digit
hex_value-upper_digit n h = ground arith

hex_pair-upper_digit :
    (c : ℕ) → c < 256 → hex_pair (upper_digit (c / 16)) (upper_digit (c % 16)) ≡ c
unfolding hex_pair
hex_pair-upper_digit c h =
    rw
      (
        hex_value-upper_digit (c / 16) (omega arith),
        hex_value-upper_digit (c % 16) (omega arith),
        hex_pair,
      )
      (omega arith)

-- A byte that is no percent sign stands for itself, or for a space if it is a plus.
url_decode-byte :
    (c : ℕ) (s : Text)
    → (c == b'%') ≡ false
    → url_decode (c ∷ s) ≡ (if c == b'+' then b' ' else c) ∷ url_decode s
unfolding url_decode
url_decode-byte c [] h = refl
url_decode-byte c (a ∷ []) h = refl
url_decode-byte c (a ∷ b ∷ s) h = rw (h, url_decode) refl

url_decode-percent :
    (c : ℕ) (s : Text)
    → c < 256
    → url_decode (b'%' ∷ upper_digit (c / 16) ∷ upper_digit (c % 16) ∷ s) ≡ c ∷ url_decode s
unfolding url_decode
url_decode-percent c s h = ap (λ d. d ∷ url_decode s) (hex_pair-upper_digit c h)

is_unreserved-plain :
    (c : ℕ) → is_unreserved c ≡ true → ((c == b'%') ≡ false) × ((c == b'+') ≡ false)
unfolding is_unreserved
is_unreserved-plain c h = (ground arith, ground arith)

url_decode-encode_byte :
    (c : ℕ) (s : Text) → c < 256 → url_decode (encode_byte c ++ s) ≡ c ∷ url_decode s
unfolding encode_byte
url_decode-encode_byte c s b = elim (Bool-cases (is_unreserved c)) [
  | inl e ↦
      let (not_percent, not_plus) = is_unreserved-plain c e in
      rw (e, encode_byte) (url_decode-byte c s not_percent ∙ rw not_plus refl)
  | inr e ↦ elim (Bool-cases (c == b' ')) [
    | inl g ↦
        let space : b' ' ≡ c = ground (arith, g) in
        rw (e, g, encode_byte) (url_decode-byte b'+' s refl ∙ ap (λ d. d ∷ url_decode s) space)
    | inr g ↦ rw (e, g, encode_byte) (url_decode-percent c s b)
  ]
]

-- Decoding undoes percent-encoding.
pub url_decode-encode : (s : Text) → All (λ c. c < 256) s → url_decode (url_encode s) ≡ s
unfolding url_encode
url_decode-encode [] h = unfold url_decode in refl
url_decode-encode (c ∷ s) (b, h) =
    url_decode-encode_byte c (url_encode s) b ∙ ap (λ (t : Text). c ∷ t) (url_decode-encode s h)

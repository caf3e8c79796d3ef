-- ===== src/Base64.antt =====
-- src/security/Base64.hpp: base64 as in RFC 4648.
pub mod Alphabet
pub mod RoundTrip
mod Tests
use geruest.Prelude.{
  ℕ, zero, suc, ◌+◌, ◌*◌, ◌/◌, ◌%◌, ◌^◌, Bool, true, false, ◌||◌, not, List, [], ◌∷◌, ◌++◌, Option,
  none, some, Text, codes, find_byte, get_or, ltb, ◌==◌, if◌then◌else◌,
}

abbrev pub base64_alphabet : Text
base64_alphabet = codes "ABCDEFGHIJKLMNOPQRSTUVWXYZabcdefghijklmnopqrstuvwxyz0123456789+/"

abbrev pub pad : ℕ
pad = b'='

-- `kAlphabet[n]`
unfoldable pub letter : ℕ → ℕ
letter n = get_or base64_alphabet n 0

-- The four letters of `triple`, which is `(b0 << 16) | (b1 << 8) | b2`: disjoint fields, a sum.
abbrev pub triple : ℕ → ℕ → ℕ → ℕ
triple b0 b1 b2 = b0 * 65536 + b1 * 256 + b2

-- One round of the loop at three bytes, at two and at one.
unfoldable pub base64_encode : Text → Text
base64_encode [] = []
base64_encode (b0 ∷ []) =
    let t = triple b0 0 0 in letter (t / 2 ^ 18 % 64) ∷ letter (t / 2 ^ 12 % 64) ∷ pad ∷ pad ∷ []
base64_encode (b0 ∷ b1 ∷ []) =
    let t = triple b0 b1 0 in
    letter (t / 2 ^ 18 % 64) ∷ letter (t / 2 ^ 12 % 64) ∷ letter (t / 2 ^ 6 % 64) ∷ pad ∷ []
base64_encode (b0 ∷ b1 ∷ b2 ∷ input) =
    let t = triple b0 b1 b2 in
    letter (t / 2 ^ 18 % 64)
    ∷ letter (t / 2 ^ 12 % 64)
    ∷ letter (t / 2 ^ 6 % 64)
    ∷ letter (t % 64)
    ∷ base64_encode input

-- `kAlphabet.find(c)`
unfoldable pub position : ℕ → Option ℕ
position c = find_byte c base64_alphabet

-- The bytes that the positions of a group give; `static_cast<char>` keeps the low eight bits.
-- `j` of them are filled.
pub group_bytes : ℕ → ℕ → ℕ → ℕ → ℕ → Text
group_bytes j t0 t1 t2 t3 =
    (if ltb j 2 then [] else (t0 * 4 + t1 % 64 / 16) % 256 ∷ [])
    ++ ((if ltb j 3 then [] else (t1 % 16 * 16 + t2 % 64 / 4) % 256 ∷ [])
        ++ (if ltb j 4 then [] else (t2 % 4 * 64 + t3) % 256 ∷ []))

-- The two loops as one pass over the letters: `j` positions are read into `temp`; the outer loop
-- flushes at four, at `=` and at the end. `temp` keeps its old entries from group to group.
unfoldable pub decode_loop : ℕ → ℕ → ℕ → ℕ → ℕ → Text → Text
unfolding group_bytes
decode_loop j t0 t1 t2 t3 [] = group_bytes j t0 t1 t2 t3
decode_loop j t0 t1 t2 t3 (c ∷ encoded) = elim (c == pad) [
  | true ↦ group_bytes j t0 t1 t2 t3
  | false ↦ elim (position c) [
    | none ↦ decode_loop j t0 t1 t2 t3 encoded
    | some p ↦ elim j [
      | zero ↦ decode_loop 1 p t1 t2 t3 encoded
      | suc zero ↦ decode_loop 2 t0 p t2 t3 encoded
      | suc (suc zero) ↦ decode_loop 3 t0 t1 p t3 encoded
      | suc (suc (suc more)) ↦ group_bytes 4 t0 t1 t2 p ++ decode_loop 0 t0 t1 t2 p encoded
    ]
  ]
]

unfoldable pub base64_decode : Text → Text
unfolding decode_loop
base64_decode encoded = decode_loop 0 0 0 0 0 encoded

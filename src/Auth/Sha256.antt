-- ===== src/Auth/Sha256.antt =====
-- src/auth/BasicAuth.cpp: `sha256Hash`, on words of 32 bits.
use Prim.Native.Nat.{bit_and, bit_xor}
use mathlib.Core.List.{reverse}
use geruest.Prelude.{
  ℕ, zero, suc, ◌+◌, ◌-◌, ◌*◌, ◌/◌, ◌%◌, ◌^◌, List, [], ◌∷◌, ◌++◌, Text, length, take, drop, get_or,
  ltb, if◌then◌else◌,
}

abbrev pub word : ℕ
word = 2 ^ 32

-- `(x >> n) | (x << (32 - n))`: disjoint fields, a sum.
abbrev rotate : ℕ → ℕ → ℕ
rotate n x = x / 2 ^ n + x * 2 ^ (32 - n) % word

-- `k`
abbrev pub round_constants : List ℕ
round_constants =
    0x428a2f98 ∷ 0x71374491 ∷ 0xb5c0fbcf ∷ 0xe9b5dba5 ∷ 0x3956c25b ∷ 0x59f111f1 ∷ 0x923f82a4
    ∷ 0xab1c5ed5 ∷ 0xd807aa98 ∷ 0x12835b01 ∷ 0x243185be ∷ 0x550c7dc3 ∷ 0x72be5d74 ∷ 0x80deb1fe
    ∷ 0x9bdc06a7 ∷ 0xc19bf174 ∷ 0xe49b69c1 ∷ 0xefbe4786 ∷ 0x0fc19dc6 ∷ 0x240ca1cc ∷ 0x2de92c6f
    ∷ 0x4a7484aa ∷ 0x5cb0a9dc ∷ 0x76f988da ∷ 0x983e5152 ∷ 0xa831c66d ∷ 0xb00327c8 ∷ 0xbf597fc7
    ∷ 0xc6e00bf3 ∷ 0xd5a79147 ∷ 0x06ca6351 ∷ 0x14292967 ∷ 0x27b70a85 ∷ 0x2e1b2138 ∷ 0x4d2c6dfc
    ∷ 0x53380d13 ∷ 0x650a7354 ∷ 0x766a0abb ∷ 0x81c2c92e ∷ 0x92722c85 ∷ 0xa2bfe8a1 ∷ 0xa81a664b
    ∷ 0xc24b8b70 ∷ 0xc76c51a3 ∷ 0xd192e819 ∷ 0xd6990624 ∷ 0xf40e3585 ∷ 0x106aa070 ∷ 0x19a4c116
    ∷ 0x1e376c08 ∷ 0x2748774c ∷ 0x34b0bcb5 ∷ 0x391c0cb3 ∷ 0x4ed8aa4a ∷ 0x5b9cca4f ∷ 0x682e6ff3
    ∷ 0x748f82ee ∷ 0x78a5636f ∷ 0x84c87814 ∷ 0x8cc70208 ∷ 0x90befffa ∷ 0xa4506ceb ∷ 0xbef9a3f7
    ∷ 0xc67178f2 ∷ []

-- The eight words of the hash value, and of a round.
pub record Hash : Type 0 where
  pub a : ℕ
  pub b : ℕ
  pub c : ℕ
  pub d : ℕ
  pub e : ℕ
  pub f : ℕ
  pub g : ℕ
  pub h : ℕ

abbrev pub initial_hash : Hash
initial_hash = record {
  a = 0x6a09e667;
  b = 0xbb67ae85;
  c = 0x3c6ef372;
  d = 0xa54ff53a;
  e = 0x510e527f;
  f = 0x9b05688c;
  g = 0x1f83d9ab;
  h = 0x5be0cd19;
}

unfoldable pub zeros : ℕ → Text
zeros zero = []
zeros (suc n) = 0 ∷ zeros n

-- The low bytes of a number, the highest first.
unfoldable pub big_endian : ℕ → ℕ → Text
big_endian zero n = []
big_endian (suc count) n = n / 256 ^ count % 256 ∷ big_endian count n

-- The padding: a byte 0x80, zeros up to 56 modulo 64, and the length in bits.
unfoldable pub padded : Text → Text
unfolding zeros big_endian
padded input =
    input
    ++ (0x80 ∷ zeros ((120 - (length input + 1) % 64) % 64)
        ++ big_endian 8 (length input * 8 % 2 ^ 64))

-- The first words of the schedule, the last one first.
unfoldable pub first_words : ℕ → List ℕ → Text → List ℕ
first_words zero ws chunk = ws
first_words (suc n) ws chunk =
    let w =
      get_or chunk 0 0 * 2 ^ 24
      + get_or chunk 1 0 * 2 ^ 16
      + get_or chunk 2 0 * 2 ^ 8
      + get_or chunk 3 0 in
    first_words n (w ∷ ws) (drop 4 chunk)

-- The further words; `w[i - j]` stands at `j - 1`.
unfoldable pub next_words : ℕ → List ℕ → List ℕ
next_words zero ws = ws
next_words (suc n) ws =
    let w15 = get_or ws 14 0 in
    let w2 = get_or ws 1 0 in
    let s0 = bit_xor (bit_xor (rotate 7 w15) (rotate 18 w15)) (w15 / 2 ^ 3) in
    let s1 = bit_xor (bit_xor (rotate 17 w2) (rotate 19 w2)) (w2 / 2 ^ 10) in
    let w = (get_or ws 15 0 + s0 + get_or ws 6 0 + s1) % word in next_words n (w ∷ ws)

unfoldable pub round : Hash → ℕ → ℕ → Hash
round x k w =
    let s1 = bit_xor (bit_xor (rotate 6 x.e) (rotate 11 x.e)) (rotate 25 x.e) in
    let ch = bit_xor (bit_and x.e x.f) (bit_and (word - 1 - x.e) x.g) in
    let temp1 = (x.h + s1 + ch + k + w) % word in
    let s0 = bit_xor (bit_xor (rotate 2 x.a) (rotate 13 x.a)) (rotate 22 x.a) in
    let maj = bit_xor (bit_xor (bit_and x.a x.b) (bit_and x.a x.c)) (bit_and x.b x.c) in
    let temp2 = (s0 + maj) % word in
    record {
      a = (temp1 + temp2) % word;
      b = x.a;
      c = x.b;
      d = x.c;
      e = (x.d + temp1) % word;
      f = x.e;
      g = x.f;
      h = x.g;
    }

unfoldable pub rounds : Hash → List ℕ → List ℕ → Hash
unfolding round
rounds x [] ws = x
rounds x (k ∷ ks) [] = x
rounds x (k ∷ ks) (w ∷ ws) = rounds (round x k w) ks ws

-- A chunk of 64 bytes.
unfoldable pub add_chunk : Hash → Text → Hash
unfolding rounds next_words first_words
add_chunk x chunk =
    let y = rounds x round_constants (reverse (next_words 48 (first_words 16 [] chunk))) in
    record {
      a = (x.a + y.a) % word;
      b = (x.b + y.b) % word;
      c = (x.c + y.c) % word;
      d = (x.d + y.d) % word;
      e = (x.e + y.e) % word;
      f = (x.f + y.f) % word;
      g = (x.g + y.g) % word;
      h = (x.h + y.h) % word;
    }

-- The loop over the chunks, by their number.
unfoldable pub add_chunks : ℕ → Hash → Text → Hash
unfolding add_chunk
add_chunks zero x msg = x
add_chunks (suc n) x msg = add_chunks n (add_chunk x (take 64 msg)) (drop 64 msg)

-- Hexadecimal digits of a word, the highest first.
unfoldable pub hex_word : ℕ → ℕ → Text
hex_word zero n = []
hex_word (suc count) n =
    let digit = n / 16 ^ count % 16 in
    (if ltb digit 10 then b'0' + digit else b'a' - 10 + digit) ∷ hex_word count n

unfoldable pub sha256_hash : Text → Text
unfolding add_chunks hex_word padded
sha256_hash input =
    let msg = padded input in
    let x = add_chunks (length msg / 64) initial_hash msg in
    hex_word 8 x.a
    ++ (hex_word 8 x.b
        ++ (hex_word 8 x.c
            ++ (hex_word 8 x.d
                ++ (hex_word 8 x.e ++ (hex_word 8 x.f ++ (hex_word 8 x.g ++ hex_word 8 x.h))))))

-- ===== src/WebSocket/Sha1.antt =====
-- src/server/WebSocket.cpp: `sha1Hash`, on words of 32 bits. The padding and the first words of the
-- schedule are those of `sha256Hash` in src/auth/BasicAuth.cpp.
use Prim.Native.Nat.{bit_and, bit_or, bit_xor}
use mathlib.Core.List.{reverse}
use geruest.Prelude.{
  ℕ, zero, suc, ◌+◌, ◌-◌, ◌*◌, ◌/◌, ◌%◌, ◌^◌, List, [], ◌∷◌, ◌++◌, Text, length, take, drop, get_or,
  ltb, if◌then◌else◌,
}
use geruest.Auth.Sha256.{word, big_endian, padded, first_words}

-- `h0` to `h4`, and `a` to `e` of a round.
pub record Digest : Type 0 where
  pub h0 : ℕ
  pub h1 : ℕ
  pub h2 : ℕ
  pub h3 : ℕ
  pub h4 : ℕ

abbrev pub initial_digest : Digest
initial_digest = record {
  h0 = 0x67452301;
  h1 = 0xEFCDAB89;
  h2 = 0x98BADCFE;
  h3 = 0x10325476;
  h4 = 0xC3D2E1F0;
}

-- `(x << n) | (x >> (32 - n))`: disjoint fields, a sum.
abbrev rotate_left : ℕ → ℕ → ℕ
rotate_left n x = x * 2 ^ n % word + x / 2 ^ (32 - n)

-- The further words; `w[i - j]` stands at `j - 1`.
unfoldable pub more_words : ℕ → List ℕ → List ℕ
more_words zero ws = ws
more_words (suc n) ws =
    let x =
      bit_xor (bit_xor (bit_xor (get_or ws 2 0) (get_or ws 7 0)) (get_or ws 13 0))
        (get_or ws 15 0) in
    more_words n (rotate_left 1 x ∷ ws)

-- `f` and `k` of round `i`.
unfoldable pub choice : ℕ → ℕ → ℕ → ℕ → ℕ × ℕ
choice i b c d =
    if ltb i 20
    then (bit_or (bit_and b c) (bit_and (word - 1 - b) d), 0x5A827999)
    else if ltb i 40
    then (bit_xor (bit_xor b c) d, 0x6ED9EBA1)
    else if ltb i 60
    then (bit_or (bit_or (bit_and b c) (bit_and b d)) (bit_and c d), 0x8F1BBCDC)
    else (bit_xor (bit_xor b c) d, 0xCA62C1D6)

unfoldable pub sha1_round : ℕ → Digest → ℕ → Digest
unfolding choice
sha1_round i x w =
    let (f, k) = choice i x.h1 x.h2 x.h3 in
    record {
      h0 = (rotate_left 5 x.h0 + f + x.h4 + k + w) % word;
      h1 = x.h0;
      h2 = rotate_left 30 x.h1;
      h3 = x.h2;
      h4 = x.h3;
    }

unfoldable pub sha1_rounds : ℕ → Digest → List ℕ → Digest
unfolding sha1_round
sha1_rounds i x [] = x
sha1_rounds i x (w ∷ ws) = sha1_rounds (i + 1) (sha1_round i x w) ws

-- A chunk of 64 bytes.
unfoldable pub sha1_chunk : Digest → Text → Digest
unfolding sha1_rounds more_words
sha1_chunk x chunk =
    let y = sha1_rounds 0 x (reverse (more_words 64 (first_words 16 [] chunk))) in
    record {
      h0 = (x.h0 + y.h0) % word;
      h1 = (x.h1 + y.h1) % word;
      h2 = (x.h2 + y.h2) % word;
      h3 = (x.h3 + y.h3) % word;
      h4 = (x.h4 + y.h4) % word;
    }

-- The loop over the chunks, by their number.
unfoldable pub sha1_chunks : ℕ → Digest → Text → Digest
unfolding sha1_chunk
sha1_chunks zero x msg = x
sha1_chunks (suc n) x msg = sha1_chunks n (sha1_chunk x (take 64 msg)) (drop 64 msg)

unfoldable pub sha1_hash : Text → Text
unfolding sha1_chunks padded big_endian
sha1_hash input =
    let msg = padded input in
    let x = sha1_chunks (length msg / 64) initial_digest msg in
    big_endian 4 x.h0
    ++ (big_endian 4 x.h1 ++ (big_endian 4 x.h2 ++ (big_endian 4 x.h3 ++ big_endian 4 x.h4)))

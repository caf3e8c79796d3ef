-- ===== src/Base64/RoundTrip.antt =====
-- Decoding what was encoded.
use geruest.Prelude.{
  ℕ, ◌+◌, ◌*◌, ◌/◌, ◌%◌, ◌^◌, ◌<◌, ◌≡◌, refl, ap, ◌∙◌, [], ◌∷◌, ◌++◌, Text, All, arith,
}
use geruest.Base64.{pad, letter, triple, base64_encode, group_bytes, decode_loop, base64_decode}
use geruest.Base64.Alphabet.{position-letter}

module _ (t0 t1 t2 t3 n : ℕ) (encoded : Text) (h : n < 64) where
  decode_first : decode_loop 0 t0 t1 t2 t3 (letter n ∷ encoded) ≡ decode_loop 1 n t1 t2 t3 encoded
  unfolding decode_loop
  decode_first = ground (arith, position-letter n h)

  decode_second : decode_loop 1 t0 t1 t2 t3 (letter n ∷ encoded) ≡ decode_loop 2 t0 n t2 t3 encoded
  unfolding decode_loop
  decode_second = ground (arith, position-letter n h)

  decode_third : decode_loop 2 t0 t1 t2 t3 (letter n ∷ encoded) ≡ decode_loop 3 t0 t1 n t3 encoded
  unfolding decode_loop
  decode_third = ground (arith, position-letter n h)

  decode_fourth :
      decode_loop 3 t0 t1 t2 t3 (letter n ∷ encoded)
      ≡ group_bytes 4 t0 t1 t2 n ++ decode_loop 0 t0 t1 t2 n encoded
  unfolding decode_loop
  decode_fourth = ground (arith, position-letter n h)

module _ (b0 b1 b2 : ℕ) (h0 : b0 < 256) (h1 : b1 < 256) (h2 : b2 < 256) where
  abbrev t : ℕ
  t = triple b0 b1 b2

  -- The four positions of three bytes give the bytes back.
  group_triple :
      group_bytes 4 (t / 2 ^ 18 % 64) (t / 2 ^ 12 % 64) (t / 2 ^ 6 % 64) (t % 64)
      ≡ b0 ∷ b1 ∷ b2 ∷ []
  unfolding group_bytes
  group_triple =
      let e0 : (t / 2 ^ 18 % 64 * 4 + t / 2 ^ 12 % 64 % 64 / 16) % 256 ≡ b0 = omega arith in
      let e1 : (t / 2 ^ 12 % 64 % 16 * 16 + t / 2 ^ 6 % 64 % 64 / 4) % 256 ≡ b1 = omega arith in
      let e2 : (t / 2 ^ 6 % 64 % 4 * 64 + t % 64) % 256 ≡ b2 = omega arith in rw (e0, e1, e2)

-- A list of bytes.
abbrev pub AreBytes : Text → Type 0
AreBytes = All (λ b. b < 256)

-- Decoding does not depend on what the four positions held before.
decode-encode :
    (t0 t1 t2 t3 : ℕ) (input : Text)
    → AreBytes input
    → decode_loop 0 t0 t1 t2 t3 (base64_encode input) ≡ input
unfolding base64_encode
decode-encode t0 t1 t2 t3 [] h = unfold decode_loop in refl
decode-encode t0 t1 t2 t3 (b0 ∷ []) (h0, _) =
    let t = triple b0 0 0 in
    let n0 = t / 2 ^ 18 % 64 in
    let n1 = t / 2 ^ 12 % 64 in
    let e0 : (n0 * 4 + n1 % 64 / 16) % 256 ≡ b0 = omega arith in
    decode_first t0 t1 t2 t3 n0 (letter n1 ∷ pad ∷ pad ∷ []) (omega arith)
    ∙ decode_second n0 t1 t2 t3 n1 (pad ∷ pad ∷ []) (omega arith)
    ∙ (unfold decode_loop in ap (λ (b : ℕ). b ∷ []) e0)
decode-encode t0 t1 t2 t3 (b0 ∷ b1 ∷ []) (h0, (h1, _)) =
    let t = triple b0 b1 0 in
    let n0 = t / 2 ^ 18 % 64 in
    let n1 = t / 2 ^ 12 % 64 in
    let n2 = t / 2 ^ 6 % 64 in
    let e0 : (n0 * 4 + n1 % 64 / 16) % 256 ≡ b0 = omega arith in
    let e1 : (n1 % 16 * 16 + n2 % 64 / 4) % 256 ≡ b1 = omega arith in
    decode_first t0 t1 t2 t3 n0 (letter n1 ∷ letter n2 ∷ pad ∷ []) (omega arith)
    ∙ decode_second n0 t1 t2 t3 n1 (letter n2 ∷ pad ∷ []) (omega arith)
    ∙ decode_third n0 n1 t2 t3 n2 (pad ∷ []) (omega arith)
    ∙ (unfold decode_loop in ground arith)
decode-encode t0 t1 t2 t3 (b0 ∷ b1 ∷ b2 ∷ input) (h0, (h1, (h2, h))) =
    let t = triple b0 b1 b2 in
    let n0 = t / 2 ^ 18 % 64 in
    let n1 = t / 2 ^ 12 % 64 in
    let n2 = t / 2 ^ 6 % 64 in
    let n3 = t % 64 in
    let rest = base64_encode input in
    decode_first t0 t1 t2 t3 n0 (letter n1 ∷ letter n2 ∷ letter n3 ∷ rest) (omega arith)
    ∙ decode_second n0 t1 t2 t3 n1 (letter n2 ∷ letter n3 ∷ rest) (omega arith)
    ∙ decode_third n0 n1 t2 t3 n2 (letter n3 ∷ rest) (omega arith)
    ∙ decode_fourth n0 n1 n2 t3 n3 rest (omega arith)
    ∙ ap (λ (g : Text). g ++ decode_loop 0 n0 n1 n2 n3 rest) (group_triple b0 b1 b2 h0 h1 h2)
    ∙ ap (λ (s : Text). b0 ∷ b1 ∷ b2 ∷ s) (decode-encode n0 n1 n2 n3 input h)

-- Decoding an encoded list of bytes gives the bytes.
pub base64_decode-encode :
    (input : Text) → AreBytes input → base64_decode (base64_encode input) ≡ input
unfolding base64_decode
base64_decode-encode input h = decode-encode 0 0 0 0 input h

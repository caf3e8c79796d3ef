-- ===== src/Base64/Tests.antt =====
-- Test vectors of RFC 4648, and an instance of the round trip.
use geruest.Prelude.{◌≡◌, refl, codes, arith}
use geruest.Base64.{base64_encode, base64_decode, letter, position}
use geruest.Base64.RoundTrip.{base64_decode-encode}

vectors :
    (base64_encode (codes "foobar") ≡ codes "Zm9vYmFy")
    × (base64_encode (codes "fooba") ≡ codes "Zm9vYmE=")
    × (base64_encode (codes "foob") ≡ codes "Zm9vYg==")
    × (base64_decode (codes "Zm9v YmE=") ≡ codes "fooba")
unfolding base64_encode base64_decode letter position
vectors = (refl, refl, refl, refl)

base64_decode-encode_example : base64_decode (base64_encode (codes "fooba")) ≡ codes "fooba"
base64_decode-encode_example = base64_decode-encode (codes "fooba") (omega arith)

-- ===== src/Auth/Credentials.antt =====
-- src/auth/BasicAuth.cpp: the credentials of a header, and the users that are let in.
use geruest.Prelude.{
  ℕ, zero, suc, ◌+◌, ◌≡◌, ◌≢◌, refl, sym, ap, ◌∙◌, Bool, true, false, ◌&&◌, inl, inr, not, [], ◌∷◌,
  ◌++◌, some, Option-cases, Text, All, codes, text_eq_iff, is_empty, find_byte, length,
  length-append, append_assoc, take, drop, take-append, drop-append, get_or, arith,
}
use geruest.Prelude.Assoc.{lookup}
use geruest.Base64.{base64_alphabet, letter, pad, base64_encode}
use geruest.Base64.RoundTrip.{AreBytes, base64_decode-encode}
use geruest.Http.{is_space, find_text}
use geruest.Auth.{
  BasicAuth, without_space, split_credentials, parse_encoded, parse_authorization_header,
  verify_credentials, requires_auth, authenticate,
}
use geruest.Auth.Sha256.{sha256_hash}

unfoldable is_spaceless : Text → Bool
is_spaceless [] = true
is_spaceless (c ∷ s) = not (is_space c) && is_spaceless s

-- A letter of the alphabet, or the default, is no white space.
get_or-no_space : (s : Text) (n : ℕ) → is_spaceless s ≡ true → is_space (get_or s n 0) ≡ false
unfolding is_spaceless
get_or-no_space [] n h = unfold is_space in refl
get_or-no_space (c ∷ s) zero h = ground arith
get_or-no_space (c ∷ s) (suc n) h = get_or-no_space s n (ground arith)

letter-no_space : (n : ℕ) → is_space (letter n) ≡ false
unfolding letter
letter-no_space n = get_or-no_space base64_alphabet n (unfold is_spaceless is_space in refl)

without_space-cons :
    (c : ℕ) (s : Text) → is_space c ≡ false → without_space s ≡ s → without_space (c ∷ s) ≡ c ∷ s
unfolding without_space
without_space-cons c s h e = rw (h, e) refl

without_space-letter :
    (n : ℕ) (s : Text) → without_space s ≡ s → without_space (letter n ∷ s) ≡ letter n ∷ s
without_space-letter n s e = without_space-cons (letter n) s (letter-no_space n) e

without_space-pad : without_space (pad ∷ []) ≡ pad ∷ []
unfolding without_space is_space
without_space-pad = refl

without_space-pads : without_space (pad ∷ pad ∷ []) ≡ pad ∷ pad ∷ []
unfolding without_space is_space
without_space-pads = refl

-- The encoding has no white space.
without_space-encode : (s : Text) → without_space (base64_encode s) ≡ base64_encode s
unfolding base64_encode
without_space-encode [] = unfold without_space in refl
without_space-encode (b0 ∷ []) =
    without_space-letter _ _ (without_space-letter _ _ without_space-pads)
without_space-encode (b0 ∷ b1 ∷ []) =
    without_space-letter _ _ (without_space-letter _ _ (without_space-letter _ _ without_space-pad))
without_space-encode (b0 ∷ b1 ∷ b2 ∷ s) = without_space-letter _ _ (
    without_space-letter _ _
      (without_space-letter _ _ (without_space-letter _ _ (without_space-encode s))))

encode-filled : (c : ℕ) (s : Text) → is_empty (base64_encode (c ∷ s)) ≡ false
unfolding base64_encode
encode-filled c [] = refl
encode-filled c (d ∷ []) = refl
encode-filled c (d ∷ e ∷ s) = refl

find_byte-colon :
    (name rest : Text)
    → All (λ c. c ≢ 58) name
    → find_byte b':' (name ++ b':' ∷ rest) ≡ some (length name)
find_byte-colon [] rest h = refl
find_byte-colon (c ∷ name) rest (n, h) = ground (arith, find_byte-colon name rest h)

split_credentials-lem :
    (c : ℕ) (name password : Text)
    → All (λ d. d ≢ 58) (c ∷ name)
    → split_credentials ((c ∷ name) ++ b':' ∷ password) ≡ some (c ∷ name, password)
unfolding split_credentials
split_credentials-lem c name password h =
    let n = length (c ∷ name) in
    let text = (c ∷ name) ++ b':' ∷ password in
    let front : take n text ≡ c ∷ name = take-append (c ∷ name) (b':' ∷ password) n refl in
    let back : drop (n + 1) text ≡ password =
      ap (drop (n + 1)) (sym (append_assoc (c ∷ name) (b':' ∷ []) password))
      ∙ drop-append ((c ∷ name) ++ b':' ∷ []) password (n + 1)
          (omega (arith, length-append (c ∷ name) (b':' ∷ []))) in
    rw (find_byte-colon (c ∷ name) password h, split_credentials, front, back) refl

-- A header that is made of a name and a password is read back as these, if the name is not empty and
-- has no colon.
pub parse_authorization_header-encode :
    (c : ℕ) (name password : Text)
    → All (λ d. d ≢ 58) (c ∷ name)
    → AreBytes ((c ∷ name) ++ b':' ∷ password)
    → parse_authorization_header (codes "Basic " ++ base64_encode ((c ∷ name) ++ b':' ∷ password))
      ≡ some (c ∷ name, password)
unfolding parse_authorization_header find_text parse_encoded
parse_authorization_header-encode c name password h g =
    let text = (c ∷ name) ++ b':' ∷ password in
    rw
      (
        parse_encoded,
        without_space-encode text,
        encode-filled c (name ++ b':' ∷ password),
        base64_decode-encode text g,
      )
      (split_credentials-lem c name password h)

verify_credentials-true :
    (auth_header : Text) (auth : BasicAuth)
    → verify_credentials auth_header auth ≡ true
    → (credentials : Text × Text) × (parse_authorization_header auth_header ≡ some credentials)
      × (lookup credentials.0 auth.users ≡ some (sha256_hash credentials.1))
unfolding verify_credentials
verify_credentials-true auth_header auth h =
    elim (Option-cases (parse_authorization_header auth_header)) [
      | inl e ↦ absurd (ground (arith, h, e))
      | inr ((name, password), e) ↦ elim (Option-cases (lookup name auth.users)) [
        | inl g ↦ absurd (ground (arith, h, e, g))
        | inr (hash, g) ↦
            ((name, password), e, ground (arith, h, e, g, text_eq_iff hash (sha256_hash password)))
      ]
    ]

-- Whoever is let in to a page that requires it has given the name of a user and a password with
-- that user's hash.
pub authenticate-requires :
    (path auth_header : Text) (auth : BasicAuth)
    → authenticate path auth_header auth ≡ true
    → requires_auth path auth ≡ true
    → (credentials : Text × Text) × (parse_authorization_header auth_header ≡ some credentials)
      × (lookup credentials.0 auth.users ≡ some (sha256_hash credentials.1))
unfolding authenticate
authenticate-requires path auth_header auth h k =
    verify_credentials-true auth_header auth (ground (arith, h, k))

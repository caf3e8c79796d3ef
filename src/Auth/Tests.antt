-- ===== src/Auth/Tests.antt =====
-- Runs of the authentication, and instances of the theorems about it.
use geruest.Prelude.{◌≡◌, refl, true, some, [], ◌∷◌, Text, text_eq_refl, codes, arith}
use geruest.Prelude.Assoc.{lookup, insert, lookup-insert_self}
use geruest.Prelude.Unique.{member}
use geruest.Base64.{base64_encode, letter}
use geruest.Auth.{
  BasicAuth, parse_authorization_header, has_users, is_page_protected, verify_credentials,
  requires_auth, authenticate,
}
use geruest.Auth.Credentials.{parse_authorization_header-encode, authenticate-requires}
use geruest.Auth.Sha256.{
  zeros, big_endian, padded, first_words, next_words, round, rounds, add_chunk, add_chunks,
  hex_word, sha256_hash,
}

-- The example of FIPS 180-4.
sha256_hash_test :
    sha256_hash (codes "abc")
    ≡ codes "ba7816bf8f01cfea414140de5dae2223b00361a396177a9cb410ff61f20015ad"
unfolding zeros big_endian padded first_words next_words round rounds add_chunk add_chunks hex_word
    sha256_hash
sha256_hash_test = refl

-- One user, and one page that only users see.
abbrev guarded : BasicAuth
guarded = record {
  enabled = true;
  users = (codes "u", sha256_hash (codes "p:")) ∷ [];
  protected_pages = codes "/a" ∷ [];
}

-- `Basic ` and the encoding of `u:p:`.
abbrev header : Text
header = codes "Basic dTpwOg=="

header-parsed : parse_authorization_header header ≡ some (codes "u", codes "p:")
unfolding base64_encode letter
header-parsed =
    parse_authorization_header-encode b'u' [] (codes "p:") (omega arith, tt)
      (omega arith, (omega arith, (omega arith, (omega arith, tt))))

requires_auth_test : requires_auth (codes "/a") guarded ≡ true
unfolding requires_auth has_users is_page_protected member
requires_auth_test = refl

authenticate_test : authenticate (codes "/a") header guarded ≡ true
unfolding authenticate verify_credentials insert
authenticate_test =
    rw (authenticate, requires_auth_test, verify_credentials, header-parsed, user)
      (text_eq_refl (sha256_hash (codes "p:")))
  where
    user : lookup (codes "u") guarded.users ≡ some (sha256_hash (codes "p:"))
    user = lookup-insert_self (codes "u") (sha256_hash (codes "p:")) []

authenticate-requires_example :
    (credentials : Text × Text) × (parse_authorization_header header ≡ some credentials)
    × (lookup credentials.0 guarded.users ≡ some (sha256_hash credentials.1))
authenticate-requires_example =
    authenticate-requires (codes "/a") header guarded authenticate_test requires_auth_test

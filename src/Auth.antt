-- ===== src/Auth.antt =====
-- src/auth/BasicAuth.cpp: Basic authentication. The sets and maps are lists.
pub mod Sha256
pub mod Credentials
mod Tests
use geruest.Prelude.{
  ℕ, ◌+◌, Bool, true, false, ◌&&◌, ◌||◌, not, List, [], ◌∷◌, ◌++◌, Option, none, some, has_value,
  Text, codes, text_eq, is_empty, find_byte, length, take, drop, if◌then◌else◌,
}
use geruest.Prelude.Assoc.{lookup, insert, erase}
use geruest.Prelude.Unique.{member}
use geruest.Base64.{base64_decode}
use geruest.Http.{is_space, find_text}
use geruest.Auth.Sha256.{sha256_hash}

pub record BasicAuth : Type 0 where
  pub enabled : Bool
  pub users : List (Text × Text)
  pub protected_pages : List Text

-- The erasure of the white space.
unfoldable pub without_space : Text → Text
unfolding is_space
without_space [] = []
without_space (c ∷ s) = let rest = without_space s in if is_space c then rest else c ∷ rest

-- The name and the password, at the first colon of the decoded text.
unfoldable pub split_credentials : Text → Option (Text × Text)
split_credentials decoded = elim (find_byte b':' decoded) [
  | none ↦ none
  | some colon ↦
      if is_empty (take colon decoded)
      then none
      else some (take colon decoded, drop (colon + 1) decoded)
]

-- What stands behind the prefix.
unfoldable pub parse_encoded : Text → Option (Text × Text)
unfolding without_space split_credentials base64_decode
parse_encoded s =
    let encoded = without_space s in
    if is_empty encoded then none else split_credentials (base64_decode encoded)

unfoldable pub parse_authorization_header : Text → Option (Text × Text)
unfolding parse_encoded find_text
parse_authorization_header auth_header = elim (find_text (codes "Basic ") auth_header) [
  | some position ↦ parse_encoded (drop (position + 6) auth_header)
  | none ↦ elim (find_text (codes "basic ") auth_header) [
    | some position ↦ parse_encoded (drop (position + 6) auth_header)
    | none ↦ none
  ]
]

unfoldable pub set_enabled : Bool → BasicAuth → BasicAuth
set_enabled enabled auth = record auth { enabled = enabled }

unfoldable pub add_user_hashed : Text → Text → BasicAuth → BasicAuth
add_user_hashed username hashed_password auth =
    if is_empty username
    then auth
    else record auth { users = insert username hashed_password auth.users }

unfoldable pub add_user : Text → Text → BasicAuth → BasicAuth
unfolding add_user_hashed
add_user username password auth = add_user_hashed username (sha256_hash password) auth

unfoldable pub remove_user : Text → BasicAuth → BasicAuth × Bool
remove_user username auth =
    (record auth { users = erase username auth.users }, has_value (lookup username auth.users))

unfoldable pub clear_users : BasicAuth → BasicAuth
clear_users auth = record auth { users = [] }

unfoldable pub has_users : BasicAuth → Bool
has_users auth = elim auth.users [ [] ↦ false | user ∷ users ↦ true ]

unfoldable pub add_protected_page : Text → BasicAuth → BasicAuth
add_protected_page path auth =
    if is_empty path || member path auth.protected_pages
    then auth
    else record auth { protected_pages = path ∷ auth.protected_pages }

unfoldable pub without_page : Text → List Text → List Text
without_page path [] = []
without_page path (page ∷ pages) =
    let rest = without_page path pages in if text_eq page path then rest else page ∷ rest

unfoldable pub remove_protected_page : Text → BasicAuth → BasicAuth × Bool
unfolding without_page
remove_protected_page path auth = (
  record auth { protected_pages = without_page path auth.protected_pages },
  member path auth.protected_pages,
)

unfoldable pub clear_protected_pages : BasicAuth → BasicAuth
clear_protected_pages auth = record auth { protected_pages = [] }

unfoldable pub is_page_protected : Text → BasicAuth → Bool
is_page_protected path auth = member path auth.protected_pages

unfoldable pub verify_credentials : Text → BasicAuth → Bool
unfolding parse_authorization_header
verify_credentials auth_header auth = elim (parse_authorization_header auth_header) [
  | none ↦ false
  | some (username, password) ↦ elim (lookup username auth.users) [
    | none ↦ false
    | some hash ↦ text_eq hash (sha256_hash password)
  ]
]

unfoldable pub requires_auth : Text → BasicAuth → Bool
unfolding has_users is_page_protected
requires_auth path auth = auth.enabled && has_users auth && is_page_protected path auth

unfoldable pub authenticate : Text → Text → BasicAuth → Bool
unfolding requires_auth verify_credentials
authenticate path auth_header auth =
    if not (requires_auth path auth) then true else verify_credentials auth_header auth

-- ===== src/Cors/Origin.antt =====
-- Only configured origins on configured paths get CORS headers, and the header names the origin.
use geruest.Prelude.{
  ◌≡◌, refl, ◌⊎◌, inl, inr, Bool, true, false, List, [], ◌∷◌, ◌++◌, none, some, Text, codes,
  text_eq, text_eq_iff, text_eq_refl, if◌then◌else◌, Bool-cases, Option-cases, if_elim, arith,
}
use geruest.Prelude.Assoc.{lookup}
use geruest.Prelude.Unique.{member}
use geruest.Cors.{
  CorsConfig, Request, any_origin, matches_path, first_allowed, resolve_origin, get_header_view,
  erase_header_key, set_header, put_cors_headers, apply_cors_headers, allowed_headers,
}

-- The value `a` that is sent back for the origin `o` is a configured one.
abbrev pub IsAllowed : List Text → Text → Text → Type 0
IsAllowed origins o a =
    ((a ≡ any_origin) × (member any_origin origins ≡ true)) ⊎ ((a ≡ o) × (member o origins ≡ true))

first_allowed-IsAllowed :
    (origins : List Text) (o a : Text) → first_allowed origins o ≡ some a → IsAllowed origins o a
unfolding first_allowed member
first_allowed-IsAllowed [] o a h = cc
first_allowed-IsAllowed (x ∷ origins) o a h =
    ground (arith, first_allowed-IsAllowed origins o a, text_eq_iff x o, text_eq_iff o x)

-- An origin that is resolved is the star, and the star is configured, or it is the request's own
-- origin, and that is configured; CORS is enabled then.
pub resolve_origin-IsAllowed :
    (cors : CorsConfig) (o a : Text)
    → resolve_origin cors o ≡ some a
    → (cors.enabled ≡ true) × IsAllowed cors.origins o a
unfolding resolve_origin
resolve_origin-IsAllowed cors o a h =
    let stands = first_allowed-IsAllowed cors.origins o a in ground (arith, stands, h)

lookup-erase_other :
    (k j : Text) (headers : List (Text × Text))
    → text_eq k j ≡ false
    → lookup k (erase_header_key headers j) ≡ lookup k headers
unfolding lookup erase_header_key
lookup-erase_other k j [] d = refl
lookup-erase_other k j ((name, value) ∷ headers) d = ground (
  arith,
  lookup-erase_other k j headers d,
  text_eq_iff name j,
  text_eq_iff name k,
  text_eq_iff k j,
)

lookup-erase_same :
    (k : Text) (headers : List (Text × Text)) → lookup k (erase_header_key headers k) ≡ none
unfolding lookup erase_header_key
lookup-erase_same k [] = refl
lookup-erase_same k ((name, value) ∷ headers) = ground (arith, lookup-erase_same k headers)

lookup-append_none :
    (k j v : Text) (headers : List (Text × Text))
    → lookup k headers ≡ none
    → lookup k (headers ++ (j, v) ∷ []) ≡ (if text_eq j k then some v else none)
unfolding lookup
lookup-append_none k j v [] h = refl
lookup-append_none k j v ((name, value) ∷ headers) h =
    ground (arith, lookup-append_none k j v headers)

lookup-append_some :
    (k j v w : Text) (headers : List (Text × Text))
    → lookup k headers ≡ some w
    → lookup k (headers ++ (j, v) ∷ []) ≡ some w
unfolding lookup
lookup-append_some k j v w [] h = cc
lookup-append_some k j v w ((name, value) ∷ headers) h =
    ground (arith, lookup-append_some k j v w headers)

lookup-set_same :
    (k v : Text) (headers : List (Text × Text)) → lookup k (set_header k v headers) ≡ some v
unfolding set_header
lookup-set_same k v headers = ground (
  arith,
  text_eq_refl k,
  lookup-erase_same k headers,
  lookup-append_none k k v (erase_header_key headers k),
)

lookup-set_other :
    (k j v w : Text) (headers : List (Text × Text))
    → text_eq k j ≡ false
    → lookup k headers ≡ some w
    → lookup k (set_header j v headers) ≡ some w
unfolding set_header
lookup-set_other k j v w headers d h =
    lookup-append_some k j v w (erase_header_key headers j)
      (ground (arith, lookup-erase_other k j headers d))

put_cors_headers-origin :
    (cors : CorsConfig) (request : Request) (preflight : Bool) (origin : Text)
    (headers : List (Text × Text))
    → lookup
        (codes "Access-Control-Allow-Origin")
        (put_cors_headers cors request preflight origin headers)
      ≡ some origin
unfolding put_cors_headers
put_cors_headers-origin cors request preflight origin headers =
    let key = codes "Access-Control-Allow-Origin" in
    let first : lookup key (set_header key origin headers) ≡ some origin =
      lookup-set_same key origin headers in
    let third =
      lookup-set_other key (codes "Vary") (codes "Origin") origin _ refl
        (lookup-set_other key (codes "Access-Control-Allow-Methods") _ origin _ refl first) in
    let fourth =
      lookup-set_other key (codes "Access-Control-Allow-Headers")
        (allowed_headers cors request preflight) origin _ refl third in
    if_elim (λ hs. lookup key hs ≡ some origin) preflight _ _
      (λ _.
        lookup-set_other key (codes "Access-Control-Max-Age") (codes "86400") origin _ refl fourth)
      (λ _. fourth)

-- Either the headers stay as they are, or the request's path is a configured one and
-- `Access-Control-Allow-Origin` is an allowed origin for it.
pub apply_cors_headers_cases :
    (headers : List (Text × Text)) (cors : CorsConfig) (request : Request) (preflight : Bool)
    → (apply_cors_headers headers cors (some request) preflight ≡ headers)
      ⊎ ((a : Text) × (matches_path cors request.path ≡ true)
          × IsAllowed cors.origins (get_header_view request.headers (codes "origin")) a
          × (lookup
                (codes "Access-Control-Allow-Origin")
                (apply_cors_headers headers cors (some request) preflight)
              ≡ some a))
unfolding apply_cors_headers put_cors_headers allowed_headers
apply_cors_headers_cases headers cors request preflight =
    let o = get_header_view request.headers (codes "origin") in
    elim (Bool-cases (matches_path cors request.path)) [
      | inr off ↦ inl (ground (arith, off))
      | inl on ↦ elim (Option-cases (resolve_origin cors o)) [
        | inl e ↦ inl (rw e (ground arith))
        | inr (a, e) ↦
            let (enabled, allowed) = resolve_origin-IsAllowed cors o a e in
            inr (
              a,
              on,
              allowed,
              rw (on, e, enabled) (put_cors_headers-origin cors request preflight a headers),
            )
      ]
    ]

-- ===== src/Cors/Tests.antt =====
-- Runs of the CORS decisions, and instances of the theorems about them.
use geruest.Prelude.{◌≡◌, ◌≢◌, refl, ◌⊎◌, true, List, [], ◌∷◌, none, some, Text, codes}
use geruest.Prelude.Assoc.{lookup}
use geruest.Prelude.Unique.{member}
use geruest.Cors.{
  CorsConfig, Request, resolve_origin, filter_requested_headers, matched_headers, split_commas,
  joined, trim_header_token, header_to_lower, trim_front, normalize_allow_header_list,
  first_allowed, matches_path, get_header_view, apply_cors_headers, default_allow_headers,
}
use geruest.Cors.Origin.{IsAllowed, resolve_origin-IsAllowed, apply_cors_headers_cases}
use geruest.Cors.Headers.{Selects, separated, filter_requested_headers-Selects}

abbrev cors : CorsConfig
cors = record {
  enabled = true;
  origins = codes "https://a" ∷ [];
  paths = codes "/v1/*" ∷ [];
  allow_headers = codes "x-key" ∷ [];
}

abbrev request : Request
request = record {
  path = codes "/v1/x";
  headers =
      (codes "Origin", codes "https://a")
      ∷ (codes "Access-Control-Request-Headers", codes " X-Key,cookie")
      ∷ [];
}

filter_tests :
    (filter_requested_headers (codes " X-Key,cookie") (codes "x-key" ∷ []) ≡ codes "X-Key")
    × (filter_requested_headers (codes "cookie") (codes "x-key" ∷ []) ≡ default_allow_headers)
    × (normalize_allow_header_list (codes " X-Key " ∷ codes " " ∷ []) ≡ codes "x-key" ∷ [])
unfolding filter_requested_headers matched_headers split_commas joined trim_header_token trim_front
    header_to_lower normalize_allow_header_list member
filter_tests = (refl, refl, refl)

origin_tests :
    (resolve_origin cors (codes "https://a") ≡ some (codes "https://a"))
    × (resolve_origin cors (codes "https://b") ≡ none)
unfolding resolve_origin first_allowed
origin_tests = (refl, refl)

resolve_origin-IsAllowed_example :
    (cors.enabled ≡ true) × IsAllowed cors.origins (codes "https://a") (codes "https://a")
resolve_origin-IsAllowed_example =
    resolve_origin-IsAllowed cors (codes "https://a") (codes "https://a") origin_tests.0

apply_cors_headers_cases_example :
    (apply_cors_headers [] cors (some request) true ≡ [])
    ⊎ ((a : Text) × (matches_path cors request.path ≡ true)
        × IsAllowed cors.origins (get_header_view request.headers (codes "origin")) a
        × (lookup
              (codes "Access-Control-Allow-Origin")
              (apply_cors_headers [] cors (some request) true)
            ≡ some a))
apply_cors_headers_cases_example = apply_cors_headers_cases [] cors request true

filter_requested_headers-Selects_example :
    (tokens : List Text) × Selects
      (codes "x-key" ∷ codes "cookie" ∷ [])
      (codes " X-Key" ∷ codes "b" ∷ codes "cookie" ∷ [])
      tokens
    × (((tokens ≡ [])
          × (filter_requested_headers
                (codes " X-Key,b,cookie")
                (codes "x-key" ∷ codes "cookie" ∷ [])
              ≡ default_allow_headers))
        ⊎ ((tokens ≢ [])
            × (filter_requested_headers
                  (codes " X-Key,b,cookie")
                  (codes "x-key" ∷ codes "cookie" ∷ [])
                ≡ separated (codes ", ") tokens)))
filter_requested_headers-Selects_example =
    filter_requested_headers-Selects (codes "x-key" ∷ codes "cookie" ∷ []) (codes " X-Key")
      (codes "b" ∷ codes "cookie" ∷ []) (refl, (refl, (refl, tt)))

-- ===== src/Routes/Tests.antt =====
-- Runs and instances on a small registry; handlers are numbers.
use geruest.Prelude.{
  ℕ, ◌<◌, ◌≡◌, refl, inl, true, false, [], ◌∷◌, List, some, none, codes, Text, contains,
  if◌then◌else◌, arith,
}
use geruest.Prelude.Assoc.{lookup, insert, erase}
use geruest.Language.{
  LanguageConfig, extract_supported_language_prefix, has_supported_language_prefix_in_target,
  is_language_available, prefix_target, strip_supported_language_prefix,
  normalize_redirect_target_language,
}
use geruest.Paths.{canonical_request_path, pop_slashes, drop_extension}
use geruest.Routes.{
  RouteRegistry, add_route, find_at, find_matching_route_impl, find_matching_route,
  find_matching_redirect, find_matching_wildcard_redirect, add_redirect, next_hop,
  has_redirect_loop, loop_probe_path, put_redirect, erase_redirect,
}
use geruest.Routes.Best.{find_best_wildcard}
use geruest.Routes.Best.Choice.{SameEntries, IsMap}
use geruest.Routes.Longest.{find_matching_wildcard_redirect_longest}
use geruest.Routes.Redirects.{HasStatuses, add_redirect-refused, add_redirect-ends, Follows}
use geruest.Wildcard.{
  star, matches_wildcard_pattern, extract_wildcard_capture, apply_wildcard_capture,
  is_likely_external_target,
}

routing : Unit {0}
unfolding lookup insert erase has_supported_language_prefix_in_target prefix_target
    extract_supported_language_prefix is_language_available strip_supported_language_prefix
    normalize_redirect_target_language canonical_request_path pop_slashes drop_extension find_at
    find_matching_route_impl find_matching_route find_matching_redirect add_route
    find_matching_wildcard_redirect add_redirect next_hop has_redirect_loop loop_probe_path
    put_redirect erase_redirect find_best_wildcard matches_wildcard_pattern extract_wildcard_capture
    apply_wildcard_capture is_likely_external_target
routing = tt

abbrev english : LanguageConfig
english = record { available_languages = codes "en" ∷ []; default_language = codes "en" }

abbrev empty : RouteRegistry ℕ ℕ ℕ
empty = record {
  languages = some english;
  routes = [];
  wildcard_routes = (codes "/a/*", 1) ∷ (codes "/*/b", 2) ∷ (codes "/a/b*", 3) ∷ [];
  async_routes = [];
  async_wildcard_routes = [];
  web_socket_routes = [];
  web_socket_wildcard_routes = [];
  web_socket_limits = record {
    max_frame_bytes = 4194304;
    max_message_bytes = 16777216;
    idle_timeout = 0;
    ping_interval = 0;
  };
  web_socket_subprotocols = [];
  redirects = (codes "/x", record { target = codes "/y"; status = 301 }) ∷ [];
  wildcard_redirects = [];
}

route_tests :
    (find_matching_route empty (codes "/a/b") ≡ some 3)
    × (find_matching_route empty (codes "/en/c/b/") ≡ some 2)
    × (find_matching_route (add_route (codes "/a/b") 9 empty) (codes "/a/b.html") ≡ some 9)
    × (find_matching_route empty (codes "/q") ≡ none)
unfolding routing
route_tests = (refl, refl, refl, refl)

redirect_tests :
    (find_matching_redirect empty (codes "/en/x") ≡ some (codes "/en/y", 301))
    × ((add_redirect (codes "/y") (codes "/z") 302 empty).1 ≡ true)
    × ((add_redirect (codes "/y") (codes "/x") 302 empty).1 ≡ false)
    × ((add_redirect (codes "/x") (codes "/x") 302 empty).1 ≡ false)
unfolding routing
redirect_tests = (refl, refl, refl, refl)

empty-HasStatuses : HasStatuses empty
empty-HasStatuses = record { exact = (inl refl, tt); wildcard = tt }

add_redirect-refused_example :
    lookup (codes "/x") (
      if contains star (codes "/x")
      then (add_redirect (codes "/x") (codes "/x") 302 empty).0.wildcard_redirects
      else (add_redirect (codes "/x") (codes "/x") 302 empty).0.redirects)
    ≡ none
add_redirect-refused_example =
    add_redirect-refused empty (codes "/x") (codes "/x") 302 (cc) (cc) redirect_tests.3

add_redirect-ends_example :
    (n : ℕ) × (last : Text) × (n < 32)
    × Follows
        (add_redirect (codes "/y") (codes "/z") 302 empty).0
        n
        (loop_probe_path (codes "/y"))
        last
    × (next_hop (add_redirect (codes "/y") (codes "/z") 302 empty).0 last ≡ none)
add_redirect-ends_example = add_redirect-ends empty (codes "/y") (codes "/z") 302 redirect_tests.1

abbrev swapped : List (Text × ℕ)
swapped = (codes "/*/b", 2) ∷ (codes "/a/*", 1) ∷ []

abbrev two : List (Text × ℕ)
two = (codes "/a/*", 1) ∷ (codes "/*/b", 2) ∷ []

two-swapped : SameEntries two swapped
two-swapped q w = (ground arith, ground arith)

two-IsMap : IsMap two
two-IsMap q v w h k = ground arith

nil-SameEntries : SameEntries {V = ℕ} [] []
nil-SameEntries q w = (λ h. h, λ h. h)

nil-IsMap : IsMap {V = ℕ} []
nil-IsMap q v w h k = absurd h

find_matching_wildcard_redirect_longest_example :
    find_matching_wildcard_redirect none
      ((codes "/a*", record { target = codes "/1*"; status = 302 })
        ∷ (codes "/*b", record { target = codes "/2"; status = 301 })
        ∷ [])
      (codes "/ab")
      (codes "/ab")
    ≡ some (codes "/1b", 302)
unfolding routing
find_matching_wildcard_redirect_longest_example =
    find_matching_wildcard_redirect_longest none (codes "/ab") (codes "/ab") []
      ((codes "/*b", record { target = codes "/2"; status = 301 }) ∷ []) (codes "/a*") (codes "b")
      (record { target = codes "/1*"; status = 302 }) (refl, refl) tt ((λ _ _. omega arith), tt)

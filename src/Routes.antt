-- ===== src/Routes.antt =====
-- src/data/RouteRegistry.cpp and .hpp: routes and redirects, and their lookup.
pub mod Settings
pub mod Best
pub mod Lookup
pub mod Redirects
pub mod Longest
mod Tests
use geruest.Prelude.{
  ℕ, ◌+◌, Bool, true, false, ◌&&◌, ◌||◌, not, List, [], ◌∷◌, ◌++◌, Option, none, some, Text, codes,
  text_eq, find_byte, contains, is_empty, length, take, drop, get_or, ltb, ◌==◌, if◌then◌else◌,
  has_value,
}
use geruest.Prelude.Assoc.{lookup, insert, erase}
use geruest.Language.{
  LanguageConfig, slash, strip_supported_language_prefix, normalize_redirect_target_language,
}
use geruest.Paths.{canonical_request_path}
use geruest.Routes.Best.{find_best_wildcard}
use geruest.Wildcard.{
  star, matches_wildcard_pattern, extract_wildcard_capture, apply_wildcard_capture,
  is_likely_external_target,
}

-- `WebSocketLimits`; the durations in seconds.
pub record WebSocketLimits : Type 0 where
  pub max_frame_bytes : ℕ
  pub max_message_bytes : ℕ
  pub idle_timeout : ℕ
  pub ping_interval : ℕ

pub record RedirectRule : Type 0 where
  pub target : Text
  pub status : ℕ

-- The handlers are callbacks of the application: `R`, `A` and `W` are their types.
pub record RouteRegistry (R A W : Type 0) : Type 0 where
  pub languages : Option LanguageConfig
  pub routes : List (Text × R)
  pub wildcard_routes : List (Text × R)
  pub async_routes : List (Text × A)
  pub async_wildcard_routes : List (Text × A)
  pub web_socket_routes : List (Text × W)
  pub web_socket_wildcard_routes : List (Text × W)
  pub web_socket_limits : WebSocketLimits
  pub web_socket_subprotocols : List Text
  pub redirects : List (Text × RedirectRule)
  pub wildcard_redirects : List (Text × RedirectRule)

module _ {V : Type 0} where
  -- The search by one path, exact and then by wildcards.
  unfoldable pub find_at : List (Text × V) → List (Text × V) → Text → Option V
  find_at exact wildcard path = elim (lookup path exact) [
    | some rule ↦ some rule
    | none ↦ find_best_wildcard wildcard path
  ]

  -- `findMatchingRouteImpl`: by the path, then by the path without its language prefix.
  unfoldable pub find_matching_route_impl :
      Option LanguageConfig → List (Text × V) → List (Text × V) → Text → Option V
  find_matching_route_impl languages exact wildcard path = elim (lookup path exact) [
    | some rule ↦ some rule
    | none ↦ elim (find_best_wildcard wildcard path) [
      | some rule ↦ some rule
      | none ↦ elim languages [
        | none ↦ none
        | some config ↦ elim (strip_supported_language_prefix config path) [
          | none ↦ none
          | some stripped ↦ find_at exact wildcard stripped
        ]
      ]
    ]
  ]

  -- `merged.insert`: keys that are there stay as they are.
  insert_new : List (Text × V) → List (Text × V) → List (Text × V)
  insert_new merged [] = merged
  insert_new merged ((k, v) ∷ more) =
      insert_new (if has_value (lookup k merged) then merged else merged ++ (k, v) ∷ []) more

module _ {R A W : Type 0} where
  pub get_routes_merged : RouteRegistry R A W → List (Text × R)
  unfolding insert_new
  get_routes_merged registry = insert_new (insert_new [] registry.routes) registry.wildcard_routes

  pub add_route : Text → R → RouteRegistry R A W → RouteRegistry R A W
  add_route path handler registry =
      if contains star path
      then record registry { wildcard_routes = insert path handler registry.wildcard_routes }
      else record registry { routes = insert path handler registry.routes }

  pub add_async_route : Text → A → RouteRegistry R A W → RouteRegistry R A W
  add_async_route path handler registry =
      if contains star path
      then record registry {
        async_wildcard_routes = insert path handler registry.async_wildcard_routes;
      }
      else record registry { async_routes = insert path handler registry.async_routes }

  pub add_web_socket_route : Text → W → RouteRegistry R A W → RouteRegistry R A W
  add_web_socket_route path handler registry =
      if contains star path
      then record registry {
        web_socket_wildcard_routes = insert path handler registry.web_socket_wildcard_routes;
      }
      else record registry { web_socket_routes = insert path handler registry.web_socket_routes }

  unfoldable pub find_matching_route : RouteRegistry R A W → Text → Option R
  find_matching_route registry path =
      find_matching_route_impl registry.languages registry.routes registry.wildcard_routes
        (canonical_request_path path)

  unfoldable pub find_matching_async_route : RouteRegistry R A W → Text → Option A
  find_matching_async_route registry path =
      find_matching_route_impl registry.languages registry.async_routes
        registry.async_wildcard_routes (canonical_request_path path)

  unfoldable pub find_matching_web_socket_route : RouteRegistry R A W → Text → Option W
  find_matching_web_socket_route registry path =
      find_matching_route_impl registry.languages registry.web_socket_routes
        registry.web_socket_wildcard_routes (canonical_request_path path)

-- A redirect that is found: the target and the status.
abbrev pub Redirect : Type 0
Redirect = Text × ℕ

-- `_languages != nullptr ? normalize(target, requestPath) : target`
pub resolve_target : Option LanguageConfig → Text → Text → Text
resolve_target none target request_path = target
resolve_target (some config) target request_path =
    normalize_redirect_target_language config target request_path

-- The variables of `findMatchingWildcardRedirect`'s loop.
pub record BestRedirect : Type 0 where
  pub best_pattern_length : ℕ
  pub best_match : Option Redirect

pub consider_redirect :
    Option LanguageConfig → Text → Text → BestRedirect → Text → RedirectRule → BestRedirect
unfolding resolve_target
consider_redirect languages path request_path best pattern rule =
    if not (matches_wildcard_pattern pattern path)
    then best
    else elim (extract_wildcard_capture pattern path) [
      | none ↦ best
      | some capture ↦
          if not (has_value best.best_match) || ltb best.best_pattern_length (length pattern)
          then record {
            best_pattern_length = length pattern;
            best_match = some (
              resolve_target languages (apply_wildcard_capture rule.target capture) request_path,
              rule.status,
            );
          }
          else best
    ]

unfoldable pub consider_redirects :
    Option LanguageConfig → Text → Text → BestRedirect → List (Text × RedirectRule) → BestRedirect
consider_redirects languages path request_path best [] = best
consider_redirects languages path request_path best ((pattern, rule) ∷ rules) =
    consider_redirects languages path request_path
      (consider_redirect languages path request_path best pattern rule) rules

unfoldable pub find_matching_wildcard_redirect :
    Option LanguageConfig → List (Text × RedirectRule) → Text → Text → Option Redirect
unfolding consider_redirects consider_redirect
find_matching_wildcard_redirect languages rules path request_path =
    (consider_redirects languages path request_path
      (record { best_pattern_length = 0; best_match = none }) rules).best_match

-- `visited.insert(current)` fails.
visits : Text → List Text → Bool
visits current [] = false
visits current (v ∷ visited) = text_eq v current || visits current visited

-- The path that stands for a pattern in the loop check: its first star replaced.
pub loop_probe_path : Text → Text
loop_probe_path path = elim (find_byte star path) [
  | none ↦ path
  | some n ↦ take n path ++ (codes "loop-check" ++ drop (n + 1) path)
]

module _ {R A W : Type 0} where
  -- The two searches of `findMatchingRedirect` by one path.
  unfoldable pub find_redirect_at : RouteRegistry R A W → Text → Text → Option Redirect
  find_redirect_at registry path request_path = elim (lookup path registry.redirects) [
    | some rule ↦ some (resolve_target registry.languages rule.target request_path, rule.status)
    | none ↦
        find_matching_wildcard_redirect registry.languages registry.wildcard_redirects path
          request_path
  ]

  unfoldable pub find_matching_redirect : RouteRegistry R A W → Text → Option Redirect
  unfolding find_redirect_at
  find_matching_redirect registry path = elim (find_redirect_at registry path path) [
    | some found ↦ some found
    | none ↦ elim registry.languages [
      | none ↦ none
      | some config ↦ elim (strip_supported_language_prefix config path) [
        | none ↦ none
        | some stripped ↦ find_redirect_at registry stripped path
      ]
    ]
  ]

  -- The target of a redirect, if the loop check follows it.
  pub next_hop : RouteRegistry R A W → Text → Option Text
  next_hop registry current = elim (find_matching_redirect registry current) [
    | none ↦ none
    | some (target, status) ↦
        if is_likely_external_target target
        then none
        else if is_empty target || not (get_or target 0 0 == slash)
        then none
        else some target
  ]

  -- The loop of `hasRedirectLoop`, over the hops that are left.
  pub follow_redirects : RouteRegistry R A W → ℕ → List Text → Text → Bool
  unfolding visits next_hop
  follow_redirects registry ℕ.zero visited current = true
  follow_redirects registry (ℕ.suc hops) visited current =
      if visits current visited then true else elim (next_hop registry current) [
        | none ↦ false
        | some target ↦ follow_redirects registry hops (current ∷ visited) target
      ]

  pub has_redirect_loop : RouteRegistry R A W → Text → Bool
  unfolding follow_redirects
  has_redirect_loop registry start_path = follow_redirects registry 32 [] start_path

  -- `_redirects[from] = rule` or the same for the wildcards; and `erase(from)`.
  put_redirect : Text → RedirectRule → RouteRegistry R A W → RouteRegistry R A W
  put_redirect path rule registry =
      if contains star path
      then record registry { wildcard_redirects = insert path rule registry.wildcard_redirects }
      else record registry { redirects = insert path rule registry.redirects }

  erase_redirect : Text → RouteRegistry R A W → RouteRegistry R A W
  erase_redirect path registry =
      if contains star path
      then record registry { wildcard_redirects = erase path registry.wildcard_redirects }
      else record registry { redirects = erase path registry.redirects }

  -- `addRedirect(from, to, status)`.
  pub add_redirect : Text → Text → ℕ → RouteRegistry R A W → RouteRegistry R A W × Bool
  add_redirect path target status registry =
      if is_empty path || is_empty target
      then (registry, false)
      else let code : ℕ = if not (status == 301) && not (status == 302) then 301 else status in
        let added = put_redirect path (record { target = target; status = code }) registry in
        if has_redirect_loop added (loop_probe_path path)
        then (erase_redirect path added, false)
        else (added, true)

  -- The loop of `addRedirects`, with the count.
  pub add_redirects : List (Text × Text) → ℕ → RouteRegistry R A W → RouteRegistry R A W × ℕ
  add_redirects [] status registry = (registry, 0)
  add_redirects ((path, target) ∷ rules) status registry =
      let (registry', added) = add_redirect path target status registry in
      let (last, count) = add_redirects rules status registry' in
      (last, (if added then count + 1 else count))

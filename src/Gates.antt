-- ===== src/Gates.antt =====
-- src/data/GateRegistry.cpp: access gates of pages and routes. A gate has a synchronous handler
-- `S` or an asynchronous one `A`; the template code takes the rule and the resolved gate as types.
pub mod Access
mod Tests
use geruest.Prelude.{
  ℕ, Bool, true, false, ◌&&◌, ◌||◌, not, List, [], ◌∷◌, Option, none, some, Text, codes, contains,
  is_empty, if◌then◌else◌, has_value,
}
use geruest.Prelude.Assoc.{lookup, insert, erase}
use geruest.Language.{
  LanguageConfig, slash, has_languages, strip_supported_language_prefix,
  normalize_redirect_target_language,
}
use geruest.Paths.{canonical_request_path, default_page_gate_redirect}
use geruest.Routes.{find_matching_route_impl}
use geruest.Routes.Best.{Best, nothing, consider, consider_all, find_best_wildcard}
use geruest.Wildcard.{star, matches_wildcard_pattern}

-- `PageGateRule` and `AsyncPageGateRule`.
pub record PageGateRule (H : Type 0) : Type 0 where
  pub handler : H
  pub redirect_to : Text

-- The handler of a resolved gate; the flag `async` says which of the two it is.
pub data Handler (S A : Type 0) : Type 0 where
  sync : S → Handler S A
  async : A → Handler S A

pub record ResolvedPageGate (S A : Type 0) : Type 0 where
  pub handler : Handler S A
  pub redirect_to : Text

pub record GateRegistry (S A : Type 0) : Type 0 where
  pub languages : Option LanguageConfig
  pub page_gates : List (Text × PageGateRule S)
  pub wildcard_page_gates : List (Text × PageGateRule S)
  pub async_page_gates : List (Text × PageGateRule A)
  pub wildcard_async_page_gates : List (Text × PageGateRule A)
  pub route_gates : List (Text × S)
  pub wildcard_route_gates : List (Text × S)
  pub async_route_gates : List (Text × A)
  pub wildcard_async_route_gates : List (Text × A)

module _ {V : Type 0} where
  -- `storeGateRule`, on the exact gates and the wildcard gates.
  pub store_gate_rule :
      Text → V → List (Text × V) → List (Text × V) → List (Text × V) × List (Text × V)
  store_gate_rule path rule exact wildcard =
      if contains star path
      then (exact, insert path rule wildcard)
      else (insert path rule exact, wildcard)

module _ {V W : Type 0} where
  -- The rules of a map, resolved.
  unfoldable pub resolve_all : (V → W) → List (Text × V) → List (Text × W)
  resolve_all resolve [] = []
  resolve_all resolve ((k, v) ∷ rules) = (k, resolve v) ∷ resolve_all resolve rules

module _ {V W R : Type 0} where
  -- `findBestWildcardGate`: the asynchronous gates are considered first, with one best match.
  unfoldable pub find_best_wildcard_gate :
      (V → R) → (W → R) → List (Text × V) → List (Text × W) → Text → Option R
  unfolding resolve_all
  find_best_wildcard_gate from_async from_sync async_wild sync_wild path =
      (consider_all path (consider_all path nothing (resolve_all from_async async_wild))
        (resolve_all from_sync sync_wild)).best_match

module _ {R : Type 0} where
  -- `findResolvedGateImpl`, by the two searches.
  unfoldable pub find_resolved_gate_impl :
      Option LanguageConfig → (Text → Option R) → (Text → Option R) → Text → Option R
  find_resolved_gate_impl languages resolve_exact find_best path =
      elim (resolve_exact (canonical_request_path path)) [
        | some resolved ↦ some resolved
        | none ↦ elim (find_best (canonical_request_path path)) [
          | some resolved ↦ some resolved
          | none ↦ elim languages [
            | none ↦ none
            | some config ↦
                elim (strip_supported_language_prefix config (canonical_request_path path)) [
                  | none ↦ none
                  | some stripped ↦ elim (resolve_exact stripped) [
                    | some resolved ↦ some resolved
                    | none ↦ find_best stripped
                  ]
                ]
          ]
        ]
      ]

module _ {S A : Type 0} where
  page_of_sync : PageGateRule S → ResolvedPageGate S A
  page_of_sync rule = record { handler = sync rule.handler; redirect_to = rule.redirect_to }

  page_of_async : PageGateRule A → ResolvedPageGate S A
  page_of_async rule = record { handler = async rule.handler; redirect_to = rule.redirect_to }

  -- A null pointer is `none`.
  pub set_gate_languages : Option LanguageConfig → GateRegistry S A → GateRegistry S A
  set_gate_languages languages registry = record registry { languages = languages }

  -- A handler may be empty (`!handler`), and is refused then, as an empty path is.
  pub add_page_gate : Text → Option S → Text → GateRegistry S A → GateRegistry S A × Bool
  unfolding store_gate_rule
  add_page_gate path none redirect_to registry = (registry, false)
  add_page_gate path (some handler) redirect_to registry =
      if is_empty path
      then (registry, false)
      else let (exact, wildcard) =
          store_gate_rule path (record { handler = handler; redirect_to = redirect_to })
            registry.page_gates registry.wildcard_page_gates in
        (record registry { page_gates = exact; wildcard_page_gates = wildcard }, true)

  pub add_async_page_gate : Text → Option A → Text → GateRegistry S A → GateRegistry S A × Bool
  unfolding store_gate_rule
  add_async_page_gate path none redirect_to registry = (registry, false)
  add_async_page_gate path (some handler) redirect_to registry =
      if is_empty path
      then (registry, false)
      else let (exact, wildcard) =
          store_gate_rule path (record { handler = handler; redirect_to = redirect_to })
            registry.async_page_gates registry.wildcard_async_page_gates in
        (record registry { async_page_gates = exact; wildcard_async_page_gates = wildcard }, true)

  -- `erase(path) > 0 || …`: whether one of the two maps had the path.
  pub remove_page_gate : Text → GateRegistry S A → GateRegistry S A × Bool
  remove_page_gate path registry =
      if contains star path
      then (
        record registry {
          wildcard_page_gates = erase path registry.wildcard_page_gates;
          wildcard_async_page_gates = erase path registry.wildcard_async_page_gates;
        },
        has_value (lookup path registry.wildcard_async_page_gates)
            || has_value (lookup path registry.wildcard_page_gates),
      )
      else (
        record registry {
          page_gates = erase path registry.page_gates;
          async_page_gates = erase path registry.async_page_gates;
        },
        has_value (lookup path registry.async_page_gates)
            || has_value (lookup path registry.page_gates),
      )

  pub clear_page_gates : GateRegistry S A → GateRegistry S A
  clear_page_gates registry = record registry {
    page_gates = [];
    wildcard_page_gates = [];
    async_page_gates = [];
    wildcard_async_page_gates = [];
  }

  -- `findMatchingGateImpl` is `findMatchingRouteImpl` of the routes, on gates.
  pub find_matching_page_gate : GateRegistry S A → Text → Option (PageGateRule S)
  find_matching_page_gate registry path =
      find_matching_route_impl registry.languages registry.page_gates registry.wildcard_page_gates
        (canonical_request_path path)

  pub find_matching_async_page_gate : GateRegistry S A → Text → Option (PageGateRule A)
  find_matching_async_page_gate registry path =
      find_matching_route_impl registry.languages registry.async_page_gates
        registry.wildcard_async_page_gates (canonical_request_path path)

  unfoldable pub resolve_exact_page_gate : GateRegistry S A → Text → Option (ResolvedPageGate S A)
  unfolding page_of_sync page_of_async
  resolve_exact_page_gate registry path = elim (lookup path registry.async_page_gates) [
    | some rule ↦ some (page_of_async rule)
    | none ↦ elim (lookup path registry.page_gates) [
      | some rule ↦ some (page_of_sync rule)
      | none ↦ none
    ]
  ]

  unfoldable pub find_best_wildcard_page_gate :
      GateRegistry S A → Text → Option (ResolvedPageGate S A)
  unfolding page_of_sync page_of_async
  find_best_wildcard_page_gate registry path =
      find_best_wildcard_gate page_of_async page_of_sync registry.wildcard_async_page_gates
        registry.wildcard_page_gates path

  unfoldable pub find_resolved_page_gate : GateRegistry S A → Text → Option (ResolvedPageGate S A)
  find_resolved_page_gate registry path =
      find_resolved_gate_impl registry.languages (resolve_exact_page_gate registry)
        (find_best_wildcard_page_gate registry) path

  pub resolve_page_gate_redirect : GateRegistry S A → Text → Text → Text
  resolve_page_gate_redirect registry redirect_to request_path =
      if is_empty redirect_to
      then elim registry.languages [
        | none ↦ default_page_gate_redirect request_path
        | some config ↦
            if has_languages config
            then normalize_redirect_target_language config (slash ∷ []) request_path
            else default_page_gate_redirect request_path
      ]
      else elim registry.languages [
        | none ↦ redirect_to
        | some config ↦ normalize_redirect_target_language config redirect_to request_path
      ]

  pub add_route_gate : Text → Option S → GateRegistry S A → GateRegistry S A × Bool
  unfolding store_gate_rule
  add_route_gate path none registry = (registry, false)
  add_route_gate path (some handler) registry =
      if is_empty path
      then (registry, false)
      else let (exact, wildcard) =
          store_gate_rule path handler registry.route_gates registry.wildcard_route_gates in
        (record registry { route_gates = exact; wildcard_route_gates = wildcard }, true)

  pub add_async_route_gate : Text → Option A → GateRegistry S A → GateRegistry S A × Bool
  unfolding store_gate_rule
  add_async_route_gate path none registry = (registry, false)
  add_async_route_gate path (some handler) registry =
      if is_empty path
      then (registry, false)
      else let (exact, wildcard) =
          store_gate_rule path handler registry.async_route_gates
            registry.wildcard_async_route_gates in
        (record registry { async_route_gates = exact; wildcard_async_route_gates = wildcard }, true)

  pub remove_route_gate : Text → GateRegistry S A → GateRegistry S A × Bool
  remove_route_gate path registry =
      if contains star path
      then (
        record registry {
          wildcard_route_gates = erase path registry.wildcard_route_gates;
          wildcard_async_route_gates = erase path registry.wildcard_async_route_gates;
        },
        has_value (lookup path registry.wildcard_async_route_gates)
            || has_value (lookup path registry.wildcard_route_gates),
      )
      else (
        record registry {
          route_gates = erase path registry.route_gates;
          async_route_gates = erase path registry.async_route_gates;
        },
        has_value (lookup path registry.async_route_gates)
            || has_value (lookup path registry.route_gates),
      )

  pub clear_route_gates : GateRegistry S A → GateRegistry S A
  clear_route_gates registry = record registry {
    route_gates = [];
    wildcard_route_gates = [];
    async_route_gates = [];
    wildcard_async_route_gates = [];
  }

  pub find_matching_route_gate : GateRegistry S A → Text → Option S
  find_matching_route_gate registry path =
      find_matching_route_impl registry.languages registry.route_gates registry.wildcard_route_gates
        (canonical_request_path path)

  unfoldable pub resolve_exact_route_gate : GateRegistry S A → Text → Option (Handler S A)
  resolve_exact_route_gate registry path = elim (lookup path registry.async_route_gates) [
    | some handler ↦ some (async handler)
    | none ↦ elim (lookup path registry.route_gates) [
      | some handler ↦ some (sync handler)
      | none ↦ none
    ]
  ]

  unfoldable pub find_best_wildcard_route_gate : GateRegistry S A → Text → Option (Handler S A)
  find_best_wildcard_route_gate registry path =
      find_best_wildcard_gate async sync registry.wildcard_async_route_gates
        registry.wildcard_route_gates path

  unfoldable pub find_resolved_route_gate : GateRegistry S A → Text → Option (Handler S A)
  find_resolved_route_gate registry path =
      find_resolved_gate_impl registry.languages (resolve_exact_route_gate registry)
        (find_best_wildcard_route_gate registry) path

  pub has_page_gates : GateRegistry S A → Bool
  has_page_gates registry =
      not (is_empty registry.page_gates)
      || not (is_empty registry.wildcard_page_gates)
      || not (is_empty registry.async_page_gates)
      || not (is_empty registry.wildcard_async_page_gates)

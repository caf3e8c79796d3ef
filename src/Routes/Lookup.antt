-- ===== src/Routes/Lookup.antt =====
-- Finding a route: what registration and the order of the maps mean for it.
use geruest.Prelude.{
  ◌≡◌, sym, ap, ◌∙◌, inl, inr, false, List, [], ◌∷◌, Option, none, some, Text, text_eq, text_eq_iff,
  contains, Bool-cases, Option-cases, arith,
}
use geruest.Prelude.Assoc.{lookup, insert, lookup-insert_self}
use geruest.Language.{LanguageConfig, strip_supported_language_prefix}
use geruest.Paths.{canonical_request_path}
use geruest.Routes.{
  RouteRegistry, find_at, find_matching_route_impl, add_route, find_matching_route,
}
use geruest.Routes.Best.Choice.{Has, SameEntries, IsMap, find_best_wildcard_order}
use geruest.Wildcard.{star}

module _ {V : Type 0} where
  lookup-Has : (k : Text) (v : V) (m : List (Text × V)) → lookup k m ≡ some v → Has k v m
  unfolding lookup
  lookup-Has k v [] h = cc
  lookup-Has k v ((j, w) ∷ m) h = elim (Bool-cases (text_eq j k)) [
    | inl e ↦ inl ((text_eq_iff j k).0 e, ground arith)
    | inr e ↦ inr (lookup-Has k v m (ground arith))
  ]

  Has-lookup :
      (k : Text) (v : V) (m : List (Text × V)) → Has k v m → (w : V) × (lookup k m ≡ some w)
  unfolding lookup
  Has-lookup k v [] h = absurd h
  Has-lookup k v ((j, w) ∷ m) (inl (e, e')) = (w, rw ((text_eq_iff j k).1 e))
  Has-lookup k v ((j, w) ∷ m) (inr h) = elim (Bool-cases (text_eq j k)) [
    | inl e ↦ (w, rw e)
    | inr e ↦ rw e (Has-lookup k v m h)
  ]

  -- A lookup sees only the entries.
  lookup_order :
      (k : Text) (m m' : List (Text × V)) → SameEntries m m' → IsMap m → lookup k m ≡ lookup k m'
  lookup_order k m m' same map = elim (Option-cases (lookup k m)) [
    | inl e ↦ elim (Option-cases (lookup k m')) [
      | inl e' ↦ e ∙ sym e'
      | inr (w, e') ↦ cc (e, (Has-lookup k w m ((same k w).1 (lookup-Has k w m' e'))).1)
    ]
    | inr (v, e) ↦ elim (Option-cases (lookup k m')) [
      | inl e' ↦ cc (e', (Has-lookup k v m' ((same k v).0 (lookup-Has k v m e))).1)
      | inr (w, e') ↦
          e
          ∙ ap some (map k v w (lookup-Has k v m e) ((same k w).1 (lookup-Has k w m' e')))
          ∙ sym e'
    ]
  ]

module _ {V : Type 0} where
  find_at_order :
      (exact exact' wildcard wildcard' : List (Text × V)) (path : Text)
      → SameEntries exact exact'
      → SameEntries wildcard wildcard'
      → IsMap exact
      → IsMap wildcard
      → find_at exact wildcard path ≡ find_at exact' wildcard' path
  unfolding find_at
  find_at_order exact exact' wildcard wildcard' path same same' map map' = ground (
    arith,
    lookup_order path exact exact' same map,
    find_best_wildcard_order wildcard wildcard' path same' map',
  )

  -- The order in which the two maps are walked does not change the route that is found.
  pub find_matching_route_impl_order :
      (languages : Option LanguageConfig) (exact exact' wildcard wildcard' : List (Text × V))
      (path : Text)
      → SameEntries exact exact'
      → SameEntries wildcard wildcard'
      → IsMap exact
      → IsMap wildcard
      → find_matching_route_impl languages exact wildcard path
        ≡ find_matching_route_impl languages exact' wildcard' path
  unfolding find_matching_route_impl
  find_matching_route_impl_order none exact exact' wildcard wildcard' path same same' map map' =
      ground (
        arith,
        lookup_order path exact exact' same map,
        find_best_wildcard_order wildcard wildcard' path same' map',
      )
  find_matching_route_impl_order (some config) exact exact' wildcard wildcard' path same same' map
        map' =
      elim (Option-cases (strip_supported_language_prefix config path)) [
        | inl e ↦ ground (
          arith,
          lookup_order path exact exact' same map,
          find_best_wildcard_order wildcard wildcard' path same' map',
        )
        | inr (stripped, e) ↦ ground (
          arith,
          lookup_order path exact exact' same map,
          find_best_wildcard_order wildcard wildcard' path same' map',
          find_at_order exact exact' wildcard wildcard' stripped same same' map map',
        )
      ]

  -- An exact rule for the path is found, whatever the wildcards and the languages.
  find_matching_route_impl_exact :
      (languages : Option LanguageConfig) (exact wildcard : List (Text × V)) (path : Text)
      (rule : V)
      → lookup path exact ≡ some rule
      → find_matching_route_impl languages exact wildcard path ≡ some rule
  unfolding find_matching_route_impl
  find_matching_route_impl_exact languages exact wildcard path rule h = ground arith

module _ {R A W : Type 0} where
  -- A route that is added for a path without a star is the one that requests for this path, and
  -- for every spelling of it with the same normal form, are given.
  pub find-add_route :
      (registry : RouteRegistry R A W) (path request : Text) (handler : R)
      → contains star path ≡ false
      → canonical_request_path request ≡ path
      → find_matching_route (add_route path handler registry) request ≡ some handler
  unfolding find_matching_route add_route
  find-add_route registry path request handler plain same =
      rw (plain, same)
        (find_matching_route_impl_exact registry.languages (insert path handler registry.routes)
          registry.wildcard_routes path handler (lookup-insert_self path handler registry.routes))

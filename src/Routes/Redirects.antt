-- ===== src/Routes/Redirects.antt =====
-- Redirects: what is registered, what is refused, and when following them ends.
use geruest.Prelude.{
  ℕ, zero, suc, ◌<◌, ◌≡◌, ◌≢◌, refl, ◌⊎◌, inl, inr, true, false, ◌&&◌, ◌||◌, not, List, [], ◌∷◌,
  Option, none, some, Text, text_eq, contains, is_empty, ◌==◌, if◌then◌else◌, Bool-cases,
  Option-cases, arith,
}
use geruest.Prelude.Assoc.{lookup, insert, erase, lookup-erase_self}
use geruest.Language.{LanguageConfig, strip_supported_language_prefix}
use geruest.Routes.{
  RouteRegistry, RedirectRule, Redirect, BestRedirect, consider_redirect, consider_redirects,
  find_matching_wildcard_redirect, find_redirect_at, find_matching_redirect, next_hop,
  follow_redirects, has_redirect_loop, loop_probe_path, put_redirect, erase_redirect, add_redirect,
}
use geruest.Wildcard.{star}

-- The two statuses that a redirect can have.
abbrev pub IsRedirectStatus : ℕ → Type 0
IsRedirectStatus status = (status ≡ 301) ⊎ (status ≡ 302)

abbrev AllStatus : List (Text × RedirectRule) → Type 0
AllStatus [] = Unit
AllStatus ((k, rule) ∷ rules) = IsRedirectStatus rule.status × AllStatus rules

insert-AllStatus :
    (k : Text) (rule : RedirectRule) (rules : List (Text × RedirectRule))
    → IsRedirectStatus rule.status
    → AllStatus rules
    → AllStatus (insert k rule rules)
unfolding insert
insert-AllStatus k rule [] h hs = (h, tt)
insert-AllStatus k rule ((j, r) ∷ rules) h (h', hs) =
    ground (arith, insert-AllStatus k rule rules h hs)

erase-AllStatus :
    (k : Text) (rules : List (Text × RedirectRule)) → AllStatus rules → AllStatus (erase k rules)
unfolding erase
erase-AllStatus k [] h = tt
erase-AllStatus k ((j, r) ∷ rules) (h, hs) = ground (arith, erase-AllStatus k rules hs)

lookup-AllStatus :
    (k : Text) (rules : List (Text × RedirectRule)) {rule : RedirectRule}
    → AllStatus rules
    → lookup k rules ≡ some rule
    → IsRedirectStatus rule.status
unfolding lookup
lookup-AllStatus k [] h e = cc
lookup-AllStatus k ((j, r) ∷ rules) {rule} (h, hs) e = elim (Bool-cases (text_eq j k)) [
  | inl hit ↦ let same : r ≡ rule = ground arith in rw (← same) h
  | inr miss ↦ lookup-AllStatus k rules {rule = rule} hs (ground arith)
]

-- What the loop over the wildcards holds has such a status.
abbrev Holds : Option Redirect → Type 0
Holds none = Unit
Holds (some (target, status)) = IsRedirectStatus status

consider_redirect-Holds :
    (languages : Option LanguageConfig) (path request : Text) (best : BestRedirect) (pattern : Text)
    (rule : RedirectRule)
    → IsRedirectStatus rule.status
    → Holds best.best_match
    → Holds (consider_redirect languages path request best pattern rule).best_match
unfolding consider_redirect
consider_redirect-Holds languages path request best pattern rule h k = ground arith

consider_redirects-Holds :
    (languages : Option LanguageConfig) (path request : Text) (best : BestRedirect)
    (rules : List (Text × RedirectRule))
    → AllStatus rules
    → Holds best.best_match
    → Holds (consider_redirects languages path request best rules).best_match
unfolding consider_redirects
consider_redirects-Holds languages path request best [] h k = k
consider_redirects-Holds languages path request best ((pattern, rule) ∷ rules) (h, hs) k =
    consider_redirects-Holds languages path request
      (consider_redirect languages path request best pattern rule) rules hs
      (consider_redirect-Holds languages path request best pattern rule h k)

legal_status :
    (status : ℕ)
    → IsRedirectStatus (if not (status == 301) && not (status == 302) then 301 else status)
legal_status status = ground arith

module _ {R A W : Type 0} where
  -- Every registered redirect has the status 301 or 302.
  pub record HasStatuses (registry : RouteRegistry R A W) : Type 0 where
    pub exact : AllStatus registry.redirects
    pub wildcard : AllStatus registry.wildcard_redirects

  find_redirect_at-Holds :
      (registry : RouteRegistry R A W) (path request : Text)
      → HasStatuses registry
      → Holds (find_redirect_at registry path request)
  unfolding find_redirect_at find_matching_wildcard_redirect
  find_redirect_at-Holds registry path request h =
      elim (Option-cases (lookup path registry.redirects)) [
        | inl e ↦
            rw (e, Holds)
              (consider_redirects-Holds registry.languages path request _
                registry.wildcard_redirects h.wildcard tt)
        | inr (rule, e) ↦ rw (e, Holds) (lookup-AllStatus path registry.redirects h.exact e)
      ]

  find_matching_redirect-Holds :
      (registry : RouteRegistry R A W) (path : Text)
      → HasStatuses registry
      → Holds (find_matching_redirect registry path)
  unfolding find_matching_redirect
  find_matching_redirect-Holds registry path h =
      elim (Option-cases (find_redirect_at registry path path)) [
        | inr (found, e) ↦ rw (e, Holds) (rw e at (find_redirect_at-Holds registry path path h))
        | inl e ↦
            rw (e, Holds)
              (elim (Option-cases registry.languages) [
                | inl none_set ↦ rw (none_set, Holds) tt
                | inr (config, e') ↦
                    rw (e', Holds)
                      (elim (Option-cases (strip_supported_language_prefix config path)) [
                        | inl e2 ↦ rw (e2, Holds) tt
                        | inr (stripped, e2) ↦
                            rw (e2, Holds) (find_redirect_at-Holds registry stripped path h)
                      ])
              ])
      ]

  -- A redirect that is found has the status 301 or 302, if all that are registered do.
  find_matching_redirect-status :
      (registry : RouteRegistry R A W) (path target : Text) (status : ℕ)
      → HasStatuses registry
      → find_matching_redirect registry path ≡ some (target, status)
      → IsRedirectStatus status
  find_matching_redirect-status registry path target status h e =
      rw e at (find_matching_redirect-Holds registry path h)

  put_redirect-HasStatuses :
      (path : Text) (rule : RedirectRule) (registry : RouteRegistry R A W)
      → IsRedirectStatus rule.status
      → HasStatuses registry
      → HasStatuses (put_redirect path rule registry)
  unfolding put_redirect
  put_redirect-HasStatuses path rule registry k h = ground (
    arith,
    insert-AllStatus path rule registry.redirects k h.exact,
    insert-AllStatus path rule registry.wildcard_redirects k h.wildcard,
  )

  erase_redirect-HasStatuses :
      (path : Text) (registry : RouteRegistry R A W)
      → HasStatuses registry
      → HasStatuses (erase_redirect path registry)
  unfolding erase_redirect
  erase_redirect-HasStatuses path registry h = ground (
    arith,
    erase-AllStatus path registry.redirects h.exact,
    erase-AllStatus path registry.wildcard_redirects h.wildcard,
  )

  -- Adding a redirect with any status keeps the statuses legal.
  add_redirect-HasStatuses :
      (registry : RouteRegistry R A W) (path target : Text) (status : ℕ)
      → HasStatuses registry
      → HasStatuses (add_redirect path target status registry).0
  unfolding add_redirect
  add_redirect-HasStatuses registry path target status h =
      let rule : RedirectRule = record {
        target = target;
        status = if not (status == 301) && not (status == 302) then 301 else status;
      } in
      let added = put_redirect path rule registry in
      let h' : HasStatuses added =
        put_redirect-HasStatuses path rule registry (legal_status status) h in
      elim (Bool-cases (is_empty path || is_empty target)) [
        | inl e ↦ rw e h
        | inr e ↦ rw e (elim (Bool-cases (has_redirect_loop added (loop_probe_path path))) [
          | inl loops ↦ rw loops (erase_redirect-HasStatuses path added h')
          | inr ends ↦ rw ends h'
        ])
      ]

  erase_redirect_lem :
      (path : Text) (registry : RouteRegistry R A W)
      → lookup path (
          if contains star path
          then (erase_redirect path registry).wildcard_redirects
          else (erase_redirect path registry).redirects)
        ≡ none
  unfolding erase_redirect
  erase_redirect_lem path registry = ground (
    arith,
    lookup-erase_self path registry.redirects,
    lookup-erase_self path registry.wildcard_redirects,
  )

  -- A redirect that is refused as a loop leaves no rule for its path, not even an earlier one.
  pub add_redirect-refused :
      (registry : RouteRegistry R A W) (path target : Text) (status : ℕ)
      → path ≢ []
      → target ≢ []
      → (add_redirect path target status registry).1 ≡ false
      → lookup path (
          if contains star path
          then (add_redirect path target status registry).0.wildcard_redirects
          else (add_redirect path target status registry).0.redirects)
        ≡ none
  unfolding add_redirect
  add_redirect-refused registry [] target status h k e = absurd (h refl)
  add_redirect-refused registry (c ∷ path) [] status h k e = absurd (k refl)
  add_redirect-refused registry (c ∷ path) (d ∷ target) status h k e =
      let rule : RedirectRule = record {
        target = d ∷ target;
        status = if not (status == 301) && not (status == 302) then 301 else status;
      } in
      let added = put_redirect (c ∷ path) rule registry in
      elim (Bool-cases (has_redirect_loop added (loop_probe_path (c ∷ path)))) [
        | inl loops ↦ rw loops (erase_redirect_lem (c ∷ path) added)
        | inr ends ↦ cc (rw ends at e)
      ]

  -- The redirects that the loop check follows, a number of times.
  pub data Follows (registry : RouteRegistry R A W) : ℕ → Text → Text → Type 0 where
    stay : {path : Text} → Follows registry zero path path
    hop :
        {n : ℕ} {path next last : Text}
        → next_hop registry path ≡ some next
        → Follows registry n next last
        → Follows registry (suc n) path last

  follow_redirects-ends :
      (registry : RouteRegistry R A W) (hops : ℕ) (visited : List Text) (path : Text)
      → follow_redirects registry hops visited path ≡ false
      → (n : ℕ) × (last : Text) × (n < hops)
        × Follows registry n path last
        × (next_hop registry last ≡ none)
  unfolding follow_redirects
  follow_redirects-ends registry zero visited path h = cc
  follow_redirects-ends registry (suc hops) visited path h =
      elim (Option-cases (next_hop registry path)) [
        | inl e ↦ (zero, path, omega arith, stay, e)
        | inr (next, e) ↦
            let (n, last, below, steps, stop) =
              follow_redirects-ends registry hops (path ∷ visited) next (ground arith) in
            (suc n, last, omega arith, hop e steps, stop)
      ]

  -- After a redirect is accepted, following redirects from the path that it is probed at ends, in
  -- fewer than 32 hops.
  pub add_redirect-ends :
      (registry : RouteRegistry R A W) (path target : Text) (status : ℕ)
      → (add_redirect path target status registry).1 ≡ true
      → (n : ℕ) × (last : Text) × (n < 32)
        × Follows (add_redirect path target status registry).0 n (loop_probe_path path) last
        × (next_hop (add_redirect path target status registry).0 last ≡ none)
  unfolding add_redirect has_redirect_loop
  add_redirect-ends registry path target status e =
      elim (Bool-cases (is_empty path || is_empty target)) [
        | inl e' ↦ cc (rw e' at e)
        | inr e' ↦
            let rule : RedirectRule = record {
              target = target;
              status = if not (status == 301) && not (status == 302) then 301 else status;
            } in
            let added = put_redirect path rule registry in
            elim (Bool-cases (follow_redirects added 32 [] (loop_probe_path path))) [
              | inl loops ↦ cc (rw (e', loops) at e)
              | inr ends ↦
                  rw (e', ends) (follow_redirects-ends added 32 [] (loop_probe_path path) ends)
            ]
      ]

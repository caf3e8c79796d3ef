-- ===== src/Routes/Longest.antt =====
-- src/data/RouteRegistry.cpp: which wildcard redirect `findMatchingWildcardRedirect` follows.
use geruest.Prelude.{
  ℕ, suc, ◌<◌, ◌≡◌, refl, ap, ◌∙◌, inl, inr, true, List, [], ◌∷◌, ◌++◌, length, Option, none, some,
  has_value, Text, Option-cases, arith,
}
use geruest.Language.{LanguageConfig}
use geruest.Routes.{
  RedirectRule, BestRedirect, resolve_target, consider_redirect, consider_redirects,
  find_matching_wildcard_redirect,
}
use geruest.Wildcard.{matches_wildcard_pattern, extract_wildcard_capture, apply_wildcard_capture}

module _ (languages : Option LanguageConfig) (path request_path : Text) where
  -- The pattern takes the path, and its star a piece of it.
  abbrev pub Takes : Text → Text → Type 0
  Takes pattern capture =
      (matches_wildcard_pattern pattern path ≡ true)
      × (extract_wildcard_capture pattern path ≡ some capture)

  -- The patterns of the rules that take the path are shorter than a length.
  abbrev pub AllShorter : ℕ → List (Text × RedirectRule) → Type 0
  AllShorter n [] = Unit
  AllShorter n ((pattern, rule) ∷ rules) =
      ((capture : Text) → Takes pattern capture → length pattern < n) × AllShorter n rules

  abbrev IsBelow : ℕ → BestRedirect → Type 0
  IsBelow n best = has_value best.best_match ≡ true → best.best_pattern_length < n

  consider_redirect-IsBelow :
      (n : ℕ) (best : BestRedirect) (pattern : Text) (rule : RedirectRule)
      → ((capture : Text) → Takes pattern capture → length pattern < n)
      → IsBelow n best
      → IsBelow n (consider_redirect languages path request_path best pattern rule)
  unfolding consider_redirect
  consider_redirect-IsBelow n best pattern rule shorter below =
      elim (Option-cases (extract_wildcard_capture pattern path)) [
        | inl e ↦ rw e (ground (arith, below))
        | inr (capture, e) ↦ rw e (ground (arith, below, shorter capture, e))
      ]

  consider_redirects-IsBelow :
      (n : ℕ) (best : BestRedirect) (rules : List (Text × RedirectRule))
      → AllShorter n rules
      → IsBelow n best
      → IsBelow n (consider_redirects languages path request_path best rules)
  unfolding consider_redirects
  consider_redirects-IsBelow n best [] shorter below = below
  consider_redirects-IsBelow n best ((pattern, rule) ∷ rules) (first, shorter) below =
      consider_redirects-IsBelow n (consider_redirect languages path request_path best pattern rule)
        rules shorter (consider_redirect-IsBelow n best pattern rule first below)

  consider_redirect_found :
      (best : BestRedirect) (pattern capture : Text) (rule : RedirectRule)
      → Takes pattern capture
      → IsBelow (length pattern) best
      → consider_redirect languages path request_path best pattern rule ≡ record {
        best_pattern_length = length pattern;
        best_match = some (
          resolve_target languages (apply_wildcard_capture rule.target capture) request_path,
          rule.status,
        );
      }
  unfolding consider_redirect
  consider_redirect_found best pattern capture rule (takes, e) below = rw e (ground (arith, below))

  consider_redirect_kept :
      (best : BestRedirect) (pattern : Text) (rule : RedirectRule)
      → has_value best.best_match ≡ true
      → ((capture : Text) → Takes pattern capture → length pattern < suc best.best_pattern_length)
      → consider_redirect languages path request_path best pattern rule ≡ best
  unfolding consider_redirect
  consider_redirect_kept best pattern rule filled shorter =
      elim (Option-cases (extract_wildcard_capture pattern path)) [
        | inl e ↦ rw e (ground arith)
        | inr (capture, e) ↦ rw e (ground (arith, shorter capture, e))
      ]

  consider_redirects_kept :
      (best : BestRedirect) (rules : List (Text × RedirectRule))
      → has_value best.best_match ≡ true
      → AllShorter (suc best.best_pattern_length) rules
      → consider_redirects languages path request_path best rules ≡ best
  unfolding consider_redirects
  consider_redirects_kept best [] filled shorter = refl
  consider_redirects_kept best ((pattern, rule) ∷ rules) filled (first, shorter) =
      ap (λ b. consider_redirects languages path request_path b rules)
        (consider_redirect_kept best pattern rule filled first)
      ∙ consider_redirects_kept best rules filled shorter

  consider_redirects-append :
      (best : BestRedirect) (before after : List (Text × RedirectRule))
      → consider_redirects languages path request_path best (before ++ after)
        ≡ consider_redirects languages path request_path
            (consider_redirects languages path request_path best before)
            after
  unfolding consider_redirects
  consider_redirects-append best [] after = refl
  consider_redirects-append best ((pattern, rule) ∷ before) after =
      consider_redirects-append (consider_redirect languages path request_path best pattern rule)
        before after

  -- Of the wildcard redirects that take a path the one with the longest pattern is followed and, of
  -- those of that length, the first of the map: where the patterns of the rules before it that take
  -- the path are shorter, and of those behind it not longer, its target is the answer.
  pub find_matching_wildcard_redirect_longest :
      (before after : List (Text × RedirectRule)) (pattern capture : Text) (rule : RedirectRule)
      → Takes pattern capture
      → AllShorter (length pattern) before
      → AllShorter (suc (length pattern)) after
      → find_matching_wildcard_redirect languages
          (before ++ (pattern, rule) ∷ after)
          path
          request_path
        ≡ some (
          resolve_target languages (apply_wildcard_capture rule.target capture) request_path,
          rule.status,
        )
  unfolding find_matching_wildcard_redirect consider_redirects
  find_matching_wildcard_redirect_longest before after pattern capture rule takes shorter longest =
      let start : BestRedirect = record { best_pattern_length = 0; best_match = none } in
      let below = consider_redirects-IsBelow (length pattern) start before shorter (λ h. cc) in
      ap (λ best. best.best_match)
        (consider_redirects-append start before ((pattern, rule) ∷ after)
          ∙ ap (λ best. consider_redirects languages path request_path best after)
              (consider_redirect_found _ pattern capture rule takes below)
          ∙ consider_redirects_kept _ after refl longest)

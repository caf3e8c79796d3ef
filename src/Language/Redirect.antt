-- ===== src/Language/Redirect.antt =====
-- Redirect targets and localized paths: the request's language in front, and taken off again.
use geruest.Prelude.{
  ◌≡◌, ◌≢◌, refl, ap, ◌⊎◌, inl, inr, true, ◌&&◌, not, [], ◌∷◌, ◌++◌, none, some, Text, text_eq_iff,
  is_empty, get_or, ◌==◌, Bool-cases, Option-cases, arith,
}
use geruest.Language.{
  LanguageConfig, slash, has_languages, extract_supported_language_prefix,
  has_supported_language_prefix_in_target, strip_supported_language_prefix, prefix_target,
  with_slash, normalize_redirect_target_language, localize_path_with_request_language,
}
use geruest.Language.Prefix.{HasPrefix, extract_of_shape, extract-HasPrefix}
use geruest.Wildcard.{is_likely_external_target}

-- A non-empty text behind a found prefix is what the prefix is stripped to.
strip_prefixed :
    (config : LanguageConfig) (request lang : Text) (rest : Text)
    → HasPrefix config request lang
    → get_or rest 0 0 ≡ slash
    → (strip_supported_language_prefix config (slash ∷ (lang ++ rest)) ≡ some rest)
      × (extract_supported_language_prefix config (slash ∷ (lang ++ rest)) ≡ some lang)
unfolding strip_supported_language_prefix
strip_prefixed config request lang [] p h = ground arith
strip_prefixed config request lang (c ∷ rest) p h =
    rw p.lang_is (ground (arith, extract_of_shape config p.a p.b (c ∷ rest) p.language))

-- The prefix is put in front of the root and of any other target alike.
prefix_target-some :
    (lang target : Text) → prefix_target (some lang) target ≡ slash ∷ (lang ++ target)
unfolding prefix_target
prefix_target-some lang target = ground (arith, text_eq_iff target (slash ∷ []))

-- The two outcomes of normalizing a target.
normalize_cases :
    (config : LanguageConfig) (target request : Text)
    → (normalize_redirect_target_language config target request ≡ target)
      ⊎ ((lang : Text) × (extract_supported_language_prefix config request ≡ some lang)
          × (get_or target 0 0 ≡ slash)
          × (normalize_redirect_target_language config target request ≡ slash ∷ (lang ++ target)))
unfolding normalize_redirect_target_language
normalize_cases config target request = elim (Bool-cases (get_or target 0 0 == slash)) [
  | inr other ↦ inl (ground arith)
  | inl rooted ↦ elim (Option-cases (extract_supported_language_prefix config request)) [
    | inl e ↦ inl (unfold prefix_target in ground arith)
    | inr (lang, e) ↦
        elim (Bool-cases (
          has_languages config
          && not (is_empty target)
          && not (is_likely_external_target target)
          && not (has_supported_language_prefix_in_target config target))) [
            | inr kept ↦ inl (ground arith)
            | inl moved ↦
                inr (lang, e, ground arith, ground (arith, prefix_target-some lang target))
          ]
  ]
]

-- A target that has a language prefix is kept.
normalize_prefixed :
    (config : LanguageConfig) (target request lang : Text)
    → extract_supported_language_prefix config target ≡ some lang
    → normalize_redirect_target_language config target request ≡ target
unfolding normalize_redirect_target_language has_supported_language_prefix_in_target
normalize_prefixed config target request lang h = ground arith

-- A redirect target is returned as it is, or with a language prefix that stripping takes off.
strip-normalize :
    (config : LanguageConfig) (target request : Text)
    → (normalize_redirect_target_language config target request ≡ target)
      ⊎ (strip_supported_language_prefix config
            (normalize_redirect_target_language config target request)
          ≡ some target)
strip-normalize config target request = elim (normalize_cases config target request) [
  | inl same ↦ inl same
  | inr (lang, e, rooted, out) ↦ inr (
      rw out
        (strip_prefixed config request lang target (extract-HasPrefix config request lang e)
          rooted).0)
]

-- Normalizing a target a second time for the same request changes nothing.
normalize_idem :
    (config : LanguageConfig) (target request : Text)
    → normalize_redirect_target_language config
        (normalize_redirect_target_language config target request)
        request
      ≡ normalize_redirect_target_language config target request
normalize_idem config target request = elim (normalize_cases config target request) [
  | inl same ↦ ap (λ t. normalize_redirect_target_language config t request) same
  | inr (lang, e, rooted, out) ↦ rw out (
      normalize_prefixed config (slash ∷ (lang ++ target)) request lang
        (strip_prefixed config request lang target (extract-HasPrefix config request lang e)
          rooted).1)
]

-- A path without a language prefix that is localized for a request with one is, without its new
-- prefix, the path as it was, made absolute.
strip-localize :
    (config : LanguageConfig) (path request lang : Text)
    → path ≢ []
    → has_languages config ≡ true
    → extract_supported_language_prefix config request ≡ some lang
    → extract_supported_language_prefix config path ≡ none
    → strip_supported_language_prefix config
        (localize_path_with_request_language config path request)
      ≡ some (with_slash path)
unfolding localize_path_with_request_language has_supported_language_prefix_in_target
strip-localize config [] request lang full h e k = absurd (full refl)
strip-localize config (c ∷ path) request lang full h e k =
    let rooted : get_or (with_slash (c ∷ path)) 0 0 ≡ slash = unfold with_slash in ground arith in
    rw (h, e, k)
      (strip_prefixed config request lang (with_slash (c ∷ path))
        (extract-HasPrefix config request lang e) rooted).0

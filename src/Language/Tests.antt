-- ===== src/Language/Tests.antt =====
-- Runs on concrete paths.
use geruest.Prelude.{◌≡◌, refl, [], ◌∷◌, some, none, codes}
use geruest.Language.{
  LanguageConfig, is_language_available, extract_supported_language_prefix,
  has_supported_language_prefix_in_target, resolve_preferred_language, with_slash, prefix_target,
  strip_supported_language_prefix, normalize_redirect_target_language,
  localize_path_with_request_language,
}
use geruest.Wildcard.{is_likely_external_target}

language : Unit {0}
unfolding is_language_available extract_supported_language_prefix
    has_supported_language_prefix_in_target resolve_preferred_language with_slash prefix_target
    strip_supported_language_prefix normalize_redirect_target_language
    localize_path_with_request_language is_likely_external_target
language = tt

abbrev two : LanguageConfig
two = record { available_languages = codes "en" ∷ codes "de" ∷ []; default_language = codes "en" }

tests :
    (extract_supported_language_prefix two (codes "/de/home") ≡ some (codes "de"))
    × (extract_supported_language_prefix two (codes "/fr/home") ≡ none)
    × (strip_supported_language_prefix two (codes "/de") ≡ some (codes "/"))
    × (normalize_redirect_target_language two (codes "/x") (codes "/de/y") ≡ codes "/de/x")
    × (normalize_redirect_target_language two (codes "//x") (codes "/de/y") ≡ codes "//x")
    × (localize_path_with_request_language two (codes "x") (codes "/de/y") ≡ codes "/de/x")
    × (resolve_preferred_language two (codes "fr, de;q=0.5") ≡ codes "de")
unfolding language
tests = (refl, refl, refl, refl, refl, refl, refl)

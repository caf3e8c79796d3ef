-- ===== src/Language.antt =====
-- src/data/LanguageConfig.cpp: the list of languages, and the prefix `/xx` of a path.
pub mod Prefix
pub mod Redirect
mod Tests
use geruest.Prelude.{
  ℕ, ◌+◌, ◌-◌, Bool, true, false, ◌&&◌, ◌||◌, not, List, [], ◌∷◌, ◌++◌, Option, none, some, Text,
  codes, text_eq, find_byte, is_empty, length, take, drop, get_or, ltb, leb, ◌==◌, if◌then◌else◌,
  has_value, starts_with,
}
use geruest.Prelude.Unique.{member}
use geruest.Wildcard.{is_likely_external_target}

pub record LanguageConfig : Type 0 where
  pub available_languages : List Text
  pub default_language : Text

abbrev pub slash : ℕ
slash = b'/'

-- `isalpha` in the "C" locale.
abbrev pub is_alpha : ℕ → Bool
is_alpha c = (leb b'A' c && leb c b'Z') || (leb b'a' c && leb c b'z')

-- A language list that is empty leaves the default as it was.
pub set_available_languages : LanguageConfig → List Text → LanguageConfig
set_available_languages config [] = record config { available_languages = [] }
set_available_languages config (lang ∷ languages) = record {
  available_languages = lang ∷ languages;
  default_language = lang;
}

unfoldable pub is_language_available : LanguageConfig → Text → Bool
unfolding member
is_language_available config lang = member lang config.available_languages

abbrev pub has_languages : LanguageConfig → Bool
has_languages config = not (is_empty config.available_languages)

-- `langLen`: `find('/', 1)` counts from the byte behind the first.
language_length : Text → ℕ
language_length path = elim (find_byte slash (drop 1 path)) [ none ↦ length path - 1 | some n ↦ n ]

unfoldable pub extract_supported_language_prefix : LanguageConfig → Text → Option Text
unfolding language_length
extract_supported_language_prefix config path =
    if ltb (length path) 3 || not (get_or path 0 0 == slash)
    then none
    else if not (language_length path == 2)
    then none
    else if not (is_alpha (get_or path 1 0)) || not (is_alpha (get_or path 2 0))
    then none
    else if not (is_language_available config (take 2 (drop 1 path)))
    then none
    else some (take 2 (drop 1 path))

unfoldable pub has_supported_language_prefix_in_target : LanguageConfig → Text → Bool
has_supported_language_prefix_in_target config target =
    has_value (extract_supported_language_prefix config target)

-- `acceptLanguage.find(lang) != npos`
unfoldable pub find_text : Text → Text → Bool
find_text needle [] = is_empty needle
find_text needle (c ∷ s) = starts_with needle (c ∷ s) || find_text needle s

-- The loop of `resolvePreferredLanguage`.
first_accepted : Text → Text → List Text → Text
unfolding find_text
first_accepted accept preferred [] = preferred
first_accepted accept preferred (lang ∷ languages) =
    if find_text lang accept then lang else first_accepted accept preferred languages

unfoldable pub resolve_preferred_language : LanguageConfig → Text → Text
unfolding first_accepted
resolve_preferred_language config accept =
    if not (has_languages config) || is_empty accept
    then config.default_language
    else first_accepted accept config.default_language config.available_languages

-- The slash that `localizePathWithRequestLanguage` puts in front of a relative path.
pub with_slash : Text → Text
with_slash path =
    if not (is_empty path) && not (get_or path 0 0 == slash) then slash ∷ path else path

unfoldable pub localize_path_with_request_language : LanguageConfig → Text → Text → Text
localize_path_with_request_language config path request_path =
    if not (has_languages config)
    then path
    else elim (extract_supported_language_prefix config request_path) [
      | none ↦ path
      | some request_lang ↦
          if has_supported_language_prefix_in_target config path
          then path
          else slash ∷ (request_lang ++ with_slash path)
    ]

unfoldable pub strip_supported_language_prefix : LanguageConfig → Text → Option Text
strip_supported_language_prefix config path = elim (extract_supported_language_prefix config path) [
  | none ↦ none
  | some lang ↦ some (if length path == 3 then slash ∷ [] else drop 3 path)
]

-- The end of `normalizeRedirectTargetLanguage`, once the request's language is looked up.
unfoldable pub prefix_target : Option Text → Text → Text
prefix_target none target = target
prefix_target (some lang) target =
    if text_eq target (slash ∷ []) then slash ∷ (lang ++ slash ∷ []) else slash ∷ (lang ++ target)

unfoldable pub normalize_redirect_target_language : LanguageConfig → Text → Text → Text
normalize_redirect_target_language config target request_path =
    if not (has_languages config) || is_empty target
    then target
    else if is_likely_external_target target
    then target
    else if not (get_or target 0 0 == slash)
    then target
    else if has_supported_language_prefix_in_target config target
    then target
    else prefix_target (extract_supported_language_prefix config request_path) target

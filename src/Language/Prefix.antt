-- ===== src/Language/Prefix.antt =====
-- The language prefix of a path, described by its shape.
use geruest.Prelude.{ℕ, ◌≡◌, true, [], ◌∷◌, some, Text, arith}
use geruest.Language.{
  LanguageConfig, slash, is_alpha, language_length, is_language_available,
  extract_supported_language_prefix,
}

-- What stands behind a prefix: nothing, or a slash and more.
abbrev pub IsRest : Text → Type 0
IsRest [] = Unit
IsRest (c ∷ s) = c ≡ slash

pub record IsLanguage (config : LanguageConfig) (a b : ℕ) : Type 0 where
  pub alpha_a : is_alpha a ≡ true
  pub alpha_b : is_alpha b ≡ true
  pub available : is_language_available config (a ∷ b ∷ []) ≡ true

-- A path of a supported language is recognised.
pub extract_of_shape :
    (config : LanguageConfig) (a b : ℕ) (rest : Text)
    → IsLanguage config a b
    → IsRest rest
    → extract_supported_language_prefix config (slash ∷ a ∷ b ∷ rest) ≡ some (a ∷ b ∷ [])
unfolding extract_supported_language_prefix language_length
extract_of_shape config a b [] l r = ground arith
extract_of_shape config a b (c ∷ rest) l r = ground arith

-- The shape of a path whose language prefix is found.
pub record HasPrefix (config : LanguageConfig) (path lang : Text) : Type 0 where
  pub a : ℕ
  pub b : ℕ
  pub rest : Text
  pub path_is : path ≡ slash ∷ a ∷ b ∷ rest
  pub lang_is : lang ≡ a ∷ b ∷ []
  pub language : IsLanguage config a b
  pub rest_is : IsRest rest

-- A language that is found is a configured one, and the path is a slash, its two letters, and then
-- nothing or a slash and a rest.
pub extract-HasPrefix :
    (config : LanguageConfig) (path lang : Text)
    → extract_supported_language_prefix config path ≡ some lang
    → HasPrefix config path lang
unfolding extract_supported_language_prefix language_length
extract-HasPrefix config [] lang h = ground arith
extract-HasPrefix config (s ∷ []) lang h = ground arith
extract-HasPrefix config (s ∷ a ∷ []) lang h = ground arith
extract-HasPrefix config (s ∷ a ∷ b ∷ []) lang h = record {
  a = a;
  b = b;
  rest = [];
  path_is = ground arith;
  lang_is = ground arith;
  language = ground arith;
  rest_is = tt;
}
extract-HasPrefix config (s ∷ a ∷ b ∷ c ∷ rest) lang h = record {
  a = a;
  b = b;
  rest = c ∷ rest;
  path_is = ground arith;
  lang_is = ground arith;
  language = ground arith;
  rest_is = ground arith;
}

-- ===== src/Dispatch/Files/Traversal.antt =====
-- src/handler/StaticFileResolver.cpp: no file outside the root is named.
use geruest.Prelude.{
  ◌≡◌, refl, ◌⊎◌, inl, inr, Bool, true, false, not, [], ◌++◌, Option, none, some, Text, codes,
  has_value, starts_with, length, ◌==◌, if◌then◌else◌, if_elim, arith,
}
use geruest.Http.Request.{HttpRequest}
use geruest.Language.{LanguageConfig, extract_supported_language_prefix}
use geruest.Dispatch.Files.{
  is_image, index_page, with_html, below_root, mounted, assemble, build_path,
}

module _ (languages : LanguageConfig) (root : Text) (is_safe_path : Text → Text → Bool) where
  -- The empty path, which no file has, or one below the root that the path test admits.
  abbrev pub IsConfined : Text → Type 0
  IsConfined path =
      (path ≡ []) ⊎ ((rest : Text) × (path ≡ root ++ rest) × (is_safe_path root rest ≡ true))

  below_root-IsConfined :
      (rest : Text) (b : Bool)
      → is_safe_path root rest ≡ b
      → IsConfined (if not b then [] else root ++ rest)
  below_root-IsConfined rest false safe = inl refl
  below_root-IsConfined rest true safe = inr (rest, refl, safe)

  mounted-IsConfined :
      (mount : Option Text) (path : Text)
      → IsConfined (mounted languages root is_safe_path mount path)
  unfolding mounted below_root
  mounted-IsConfined none path = inl refl
  mounted-IsConfined (some mount) path =
      below_root-IsConfined (mount ++ with_html languages root is_safe_path path) _ refl

  abbrev IsIndexOrConfined : HttpRequest → Text → Type 0
  IsIndexOrConfined request path =
      (path ≡ index_page languages root is_safe_path request) ⊎ IsConfined path

  -- The name of a file that `buildPath` gives is empty, or the index page of the root or of the
  -- preferred language, or the root followed by a path that the path test has admitted.
  pub build_path_confined :
      (request : HttpRequest) (extension path : Text)
      → IsIndexOrConfined request (build_path languages root is_safe_path request extension path)
  unfolding build_path assemble
  build_path_confined request extension path =
      if_elim (IsIndexOrConfined request) (not (is_safe_path root path)) _ _ (λ _. inr (inl refl))
        λ safe.
          if_elim (IsIndexOrConfined request) (is_image extension) _ _
            (λ _.
              if_elim (IsIndexOrConfined request) (starts_with (codes "/assets/") path) _ _
                (λ _. inr (inr (path, refl, ground (arith)))) (λ _. inr (mounted-IsConfined _ _)))
            λ _.
              if_elim (IsIndexOrConfined request)
                (not (has_value (extract_supported_language_prefix languages path))) _ _
                (λ _.
                  if_elim (IsIndexOrConfined request) (length path == 1) _ _ (λ _. inl refl)
                    (λ _. inr (mounted-IsConfined _ _)))
                (λ _. inr (mounted-IsConfined _ _))

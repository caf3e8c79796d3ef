-- ===== src/Dispatch/Files.antt =====
-- src/handler/StaticFileResolver.cpp: which file of the root a path that no route serves names. The
-- path test of src/security/Security.cpp, which asks the file system, is an argument.
pub mod Traversal
use geruest.Prelude.{
  ℕ, ◌+◌, Bool, true, false, ◌||◌, not, List, [], ◌∷◌, ◌++◌, Option, none, some, Text, codes,
  text_eq, is_empty, length, drop, take, map, find_byte, contains, starts_with, has_value, ◌==◌,
  if◌then◌else◌,
}
use geruest.Prelude.Assoc.{lookup}
use geruest.Cors.{get_header_view}
use geruest.Http.{ascii_lower}
use geruest.Http.Request.{HttpRequest}
use geruest.Language.{
  LanguageConfig, slash, has_languages, resolve_preferred_language,
  extract_supported_language_prefix,
}

abbrev asset_root_by_extension : List (Text × Text)
asset_root_by_extension =
    (codes "css", codes "/assets/css")
    ∷ (codes "js", codes "/assets/js")
    ∷ (codes "jpg", codes "/assets/images")
    ∷ (codes "jpeg", codes "/assets/images")
    ∷ (codes "png", codes "/assets/images")
    ∷ (codes "gif", codes "/assets/images")
    ∷ (codes "svg", codes "/assets/images")
    ∷ (codes "ico", codes "/assets/images")
    ∷ (codes "webp", codes "/assets/images")
    ∷ (codes "JSON", codes "/assets/JSONs")
    ∷ (codes "pdf", codes "/assets/docs")
    ∷ (codes "zip", codes "/assets/docs")
    ∷ (codes "mp3", codes "/assets/audio")
    ∷ (codes "mp4", codes "/assets/video")
    ∷ (codes "xml", codes "/assets/docs")
    ∷ (codes "csv", codes "/assets/docs")
    ∷ (codes "txt", codes "/assets/docs")
    ∷ []

abbrev content_type_by_extension : List (Text × Text)
content_type_by_extension =
    (codes "html", codes "text/html")
    ∷ (codes "htm", codes "text/html")
    ∷ (codes "css", codes "text/css")
    ∷ (codes "js", codes "text/javascript")
    ∷ (codes "jpg", codes "image/jpeg")
    ∷ (codes "jpeg", codes "image/jpeg")
    ∷ (codes "png", codes "image/png")
    ∷ (codes "gif", codes "image/gif")
    ∷ (codes "webp", codes "image/webp")
    ∷ (codes "svg", codes "image/svg+xml")
    ∷ (codes "ico", codes "image/x-icon")
    ∷ (codes "JSON", codes "application/JSON")
    ∷ (codes "pdf", codes "application/pdf")
    ∷ (codes "zip", codes "application/zip")
    ∷ (codes "mp3", codes "audio/mpeg")
    ∷ (codes "mp4", codes "video/mp4")
    ∷ (codes "xml", codes "application/xml")
    ∷ (codes "csv", codes "text/csv")
    ∷ (codes "txt", codes "text/plain")
    ∷ []

-- What is behind the first dot.
unfoldable pub get_extension : Text → Text
get_extension path = elim (find_byte b'.' path) [ none ↦ codes "html" | some n ↦ drop (n + 1) path ]

unfoldable pub get_content_type : Text → Text
unfolding lookup
get_content_type extension = elim (lookup extension content_type_by_extension) [
  | none ↦ codes "application/octet-stream"
  | some content_type ↦ content_type
]

-- `find_last_of('/')`
unfoldable pub find_last_slash : Text → Option ℕ
find_last_slash [] = none
find_last_slash (c ∷ s) = elim (find_last_slash s) [
  | none ↦ if c == slash then some 0 else none
  | some n ↦ some (n + 1)
]

abbrev pub is_image : Text → Bool
is_image extension =
    text_eq extension (codes "jpg")
    || text_eq extension (codes "jpeg")
    || text_eq extension (codes "png")
    || text_eq extension (codes "gif")
    || text_eq extension (codes "svg")
    || text_eq extension (codes "ico")
    || text_eq extension (codes "webp")

abbrev pub is_page : Text → Bool
is_page extension = text_eq extension (codes "html") || text_eq extension (codes "htm")

-- `host`
unfoldable pub host_of : Text → Text
host_of host = if is_empty host then codes "localhost" else host

-- `scheme`
unfoldable pub scheme_of : Text → Text
unfolding ascii_lower
scheme_of forwarded_proto =
    let scheme = map ascii_lower forwarded_proto in
    if is_empty forwarded_proto
    then codes "http"
    else if text_eq scheme (codes "http") || text_eq scheme (codes "https")
    then scheme
    else codes "http"

-- The part of `path` below the directory of the page that names the image.
unfoldable pub relative_to_referer : Text → Text → Text → Text → Text
unfolding find_last_slash
relative_to_referer scheme host referer path = elim (find_last_slash referer) [
  | none ↦ path
  | some n ↦
      let base = take (n + 1) referer in
      let full_request_url = scheme ++ codes "://" ++ host ++ path in
      if starts_with base full_request_url
      then slash ∷ drop (length base) full_request_url
      else path
]

-- `pathReceived` of an image that is not below /assets/.
unfoldable pub image_path : HttpRequest → Text → Text
unfolding relative_to_referer host_of scheme_of find_last_slash get_header_view
image_path request path =
    let referer = get_header_view request.headers (codes "referer") in
    if not (is_empty referer)
    then relative_to_referer
        (scheme_of (get_header_view request.headers (codes "x-forwarded-proto")))
        (host_of (get_header_view request.headers (codes "host"))) referer path
    else elim (find_last_slash path) [ none ↦ slash ∷ path | some n ↦ drop n path ]

module _ (languages : LanguageConfig) (root : Text) (is_safe_path : Text → Text → Bool) where
  abbrev preferred : HttpRequest → Text
  preferred request =
      resolve_preferred_language languages
        (get_header_view request.headers (codes "accept-language"))

  -- The page of the path `/`.
  unfoldable pub index_page : HttpRequest → Text
  unfolding get_header_view
  index_page request =
      if has_languages languages
      then root ++ codes "/html/" ++ preferred request ++ codes "/index.html"
      else root ++ codes "/html/index.html"

  -- `htmlMount` of a path without a language.
  unfoldable pub html_mount : HttpRequest → Text
  unfolding get_header_view
  html_mount request =
      if has_languages languages then codes "/html/" ++ preferred request else codes "/html"

  -- `pathReceived` of a path with a language.
  unfoldable pub language_path : Text → Text → Text
  language_path extension path =
      if length path == 4
      then path ++ codes "/index"
      else if not (is_page extension)
      then drop 3 path
      else path

  abbrev pub with_html : Text → Text
  with_html path = if contains b'.' path then path else path ++ codes ".html"

  -- `mount`; none where the extension is unknown.
  unfoldable pub mount_of : Text → Text → Option Text
  unfolding lookup
  mount_of extension html =
      if is_page extension then some html else lookup extension asset_root_by_extension

  -- `finalPath`; the empty string where the path test refuses it.
  unfoldable pub below_root : Text → Text
  below_root rest = if not (is_safe_path root rest) then [] else root ++ rest

  unfoldable pub mounted : Option Text → Text → Text
  unfolding below_root
  mounted none path = []
  mounted (some mount) path = below_root (mount ++ with_html path)

  -- The end of `buildPath`, behind the choice of `pathReceived` and `htmlMount`.
  unfoldable pub assemble : Text → Text → Text → Text
  unfolding mount_of mounted
  assemble extension html path = mounted (mount_of extension html) path

  -- A string that is empty where the path is refused.
  unfoldable pub build_path : HttpRequest → Text → Text → Text
  unfolding image_path index_page html_mount language_path assemble
  build_path request extension path =
      if not (is_safe_path root path)
      then []
      else if is_image extension
      then (if starts_with (codes "/assets/") path
          then root ++ path
          else assemble extension (codes "/html") (image_path request path))
      else if not (has_value (extract_supported_language_prefix languages path))
      then (if length path == 1
          then index_page request
          else assemble extension (html_mount request) path)
      else assemble extension (codes "/html") (language_path extension path)

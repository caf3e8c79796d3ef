-- ===== src/Dispatch/Compression.antt =====
-- src/handler/GzipResponse.cpp: which responses are compressed. zlib is an argument.
pub mod Fields
mod Tests
use geruest.Prelude.{
  ℕ, Bool, true, false, ◌||◌, not, List, [], ◌∷◌, Option, none, some, Text, codes, text_eq,
  is_empty, length, take, map, ltb, leb, if◌then◌else◌,
}
use geruest.Cors.{get_header_view}
use geruest.Http.{ascii_lower, trim_sv, split_on}
use geruest.Http.Chunked.{before_semicolon}
use geruest.Http.Request.{HttpRequest}
use geruest.Http.Response.{HttpResponse, has_header_key, get_header_value, with_header, with_body}

abbrev pub min_compress_bytes : ℕ
min_compress_bytes = 1024

-- `iequalsAscii`, by `tolower` in the "C" locale.
unfoldable pub iequals_ascii : Text → Text → Bool
unfolding ascii_lower
iequals_ascii a b = text_eq (map ascii_lower a) (map ascii_lower b)

unfoldable pub any_gzip : List Text → Bool
unfolding iequals_ascii trim_sv before_semicolon
any_gzip [] = false
any_gzip (token ∷ tokens) =
    iequals_ascii (before_semicolon (trim_sv token)) (codes "gzip") || any_gzip tokens

unfoldable pub accepts_gzip : Text → Bool
unfolding any_gzip split_on
accepts_gzip accept_encoding = any_gzip (split_on b',' accept_encoding)

unfoldable pub is_compressible_content_type : Text → Bool
unfolding iequals_ascii before_semicolon
is_compressible_content_type content_type =
    let base = before_semicolon content_type in
    iequals_ascii (take 5 base) (codes "text/")
    || iequals_ascii base (codes "application/json")
    || iequals_ascii base (codes "application/javascript")
    || iequals_ascii base (codes "application/xml")
    || iequals_ascii base (codes "text/xml")

-- The early returns but the last.
unfoldable pub is_compressed : HttpResponse → HttpRequest → Bool
unfolding has_header_key get_header_value accepts_gzip is_compressible_content_type get_header_view
is_compressed response request =
    if ltb (length response.body) min_compress_bytes
    then false
    else if has_header_key response.headers (codes "Content-Encoding")
    then false
    else if not (accepts_gzip (get_header_view request.headers (codes "accept-encoding")))
    then false
    else is_compressible_content_type (get_header_value response (codes "Content-Type"))

-- The calls that make a response a compressed one.
unfoldable pub compressed_response : HttpResponse → Text → HttpResponse
unfolding with_header with_body
compressed_response response compressed =
    with_header (codes "Vary") (codes "Accept-Encoding")
      (with_header (codes "Content-Encoding") (codes "gzip") (with_body compressed response))

-- What is done with the output of zlib.
unfoldable pub after_gzip : HttpResponse → Option Text → HttpResponse
unfolding compressed_response
after_gzip response none = response
after_gzip response (some compressed) =
    if leb (length response.body) (length compressed)
    then response
    else compressed_response response compressed

unfoldable pub apply_response_compression :
    (Text → Option Text) → HttpRequest → HttpResponse → HttpResponse
unfolding is_compressed after_gzip
apply_response_compression gzip_compress request response =
    if not (is_compressed response request)
    then response
    else after_gzip response (gzip_compress response.body)

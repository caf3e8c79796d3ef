-- ===== src/Cors.antt =====
-- src/data/CorsConfig.cpp: which requests get CORS headers, and which. Of the request it reads the
-- path and the headers, whose names src/data/HTTPRequest.cpp compares without case; of the response
-- it sets headers with `setHeader` of src/data/HTTPResponse.cpp.
pub mod Origin
pub mod Headers
mod Tests
use mathlib.Core.List.{reverse}
use geruest.Prelude.{
  ℕ, ◌+◌, Bool, true, false, ◌&&◌, ◌||◌, not, List, [], ◌∷◌, ◌++◌, Option, none, some, Text, codes,
  text_eq, is_empty, leb, ◌==◌, if◌then◌else◌,
}
use geruest.Wildcard.{matches_wildcard_pattern}
use geruest.Prelude.Unique.{member}

pub record CorsOptions : Type 0 where
  pub origins : List Text
  pub paths : List Text
  pub allow_headers : List Text

pub record CorsConfig : Type 0 where
  pub enabled : Bool
  pub origins : List Text
  pub paths : List Text
  pub allow_headers : List Text

pub record Request : Type 0 where
  pub path : Text
  pub headers : List (Text × Text)

abbrev pub default_allow_headers : Text
default_allow_headers = codes "Content-Type, Authorization, Accept, X-Requested-With"

abbrev allow_methods : Text
allow_methods = codes "GET, POST, PUT, DELETE, PATCH, OPTIONS"

abbrev built_in_allow_headers : List Text
built_in_allow_headers =
    codes "content-type" ∷ codes "authorization" ∷ codes "accept" ∷ codes "x-requested-with" ∷ []

-- `tolower` of each byte in the "C" locale.
unfoldable pub header_to_lower : Text → Text
header_to_lower [] = []
header_to_lower (c ∷ header) =
    (if leb b'A' c && leb c b'Z' then c + 32 else c) ∷ header_to_lower header

-- `isspace` in the "C" locale.
abbrev is_space : ℕ → Bool
is_space c = c == 32 || (leb 9 c && leb c 13)

unfoldable pub trim_front : Text → Text
trim_front [] = []
trim_front (c ∷ token) = let rest = trim_front token in if is_space c then rest else c ∷ token

unfoldable pub trim_header_token : Text → Text
unfolding trim_front
trim_header_token token = reverse (trim_front (reverse (trim_front token)))

unfoldable pub normalize_allow_header_list : List Text → List Text
normalize_allow_header_list [] = []
normalize_allow_header_list (header ∷ headers) =
    let rest = normalize_allow_header_list headers in
    if not (is_empty (trim_header_token header))
    then header_to_lower (trim_header_token header) ∷ rest
    else rest

-- The pieces between the commas, which the loop of `filterRequestedHeaders` cuts off one by one. A
-- piece behind a last comma is empty, and the loop skips it as any other empty one.
unfoldable pub split_commas : Text → Text → List Text
split_commas piece [] = reverse piece ∷ []
split_commas piece (c ∷ requested) = elim (c == b',') [
  | true ↦ reverse piece ∷ split_commas [] requested
  | false ↦ split_commas (c ∷ piece) requested
]

-- `matched`, of the pieces that are left.
unfoldable pub matched_headers : List Text → List Text → List Text
matched_headers allowed [] = []
matched_headers allowed (piece ∷ pieces) =
    let rest = matched_headers allowed pieces in
    if is_empty (trim_header_token piece)
    then rest
    else if member (header_to_lower (trim_header_token piece)) allowed
    then trim_header_token piece ∷ rest
    else rest

unfoldable pub joined : List Text → Text
joined [] = []
joined (token ∷ []) = token
joined (token ∷ other ∷ tokens) = token ++ codes ", " ++ joined (other ∷ tokens)

unfoldable pub filter_requested_headers : Text → List Text → Text
filter_requested_headers requested allow_headers =
    let matched = matched_headers allow_headers (split_commas [] requested) in
    if is_empty matched then default_allow_headers else joined matched

-- `CorsConfig::fromOptions`
unfoldable pub from_options : CorsOptions → CorsConfig
from_options options =
    if is_empty options.origins || is_empty options.paths
    then record { enabled = false; origins = []; paths = []; allow_headers = [] }
    else record {
      enabled = true;
      origins = options.origins;
      paths = options.paths;
      allow_headers =
          (if is_empty options.allow_headers
            then built_in_allow_headers
            else normalize_allow_header_list options.allow_headers);
    }

unfoldable pub any_pattern : List Text → Text → Bool
any_pattern [] path = false
any_pattern (pattern ∷ patterns) path =
    matches_wildcard_pattern pattern path || any_pattern patterns path

unfoldable pub matches_path : CorsConfig → Text → Bool
matches_path cors path = cors.enabled && any_pattern cors.paths path

abbrev pub any_origin : Text
any_origin = codes "*"

-- The loop of `resolveOrigin`.
unfoldable pub first_allowed : List Text → Text → Option Text
first_allowed [] origin = none
first_allowed (allowed ∷ origins) origin =
    if text_eq allowed any_origin
    then some any_origin
    else if text_eq origin allowed
    then some origin
    else first_allowed origins origin

unfoldable pub resolve_origin : CorsConfig → Text → Option Text
resolve_origin cors request_origin =
    if not cors.enabled || is_empty request_origin
    then none
    else first_allowed cors.origins request_origin

-- `getHeaderView`
unfoldable pub get_header_view : List (Text × Text) → Text → Text
get_header_view [] key = []
get_header_view ((name, value) ∷ headers) key =
    if text_eq (header_to_lower name) (header_to_lower key)
    then value
    else get_header_view headers key

-- `setHeader`
unfoldable pub erase_header_key : List (Text × Text) → Text → List (Text × Text)
erase_header_key [] key = []
erase_header_key ((name, value) ∷ headers) key =
    let rest = erase_header_key headers key in
    if text_eq name key then rest else (name, value) ∷ rest

unfoldable pub set_header : Text → Text → List (Text × Text) → List (Text × Text)
set_header key value headers = erase_header_key headers key ++ (key, value) ∷ []

-- What `Access-Control-Allow-Headers` says.
unfoldable pub allowed_headers : CorsConfig → Request → Bool → Text
allowed_headers cors request preflight =
    let requested = get_header_view request.headers (codes "access-control-request-headers") in
    if preflight && not (is_empty requested)
    then filter_requested_headers requested cors.allow_headers
    else default_allow_headers

-- The calls of `setHeader` for an allowed origin.
unfoldable pub put_cors_headers :
    CorsConfig → Request → Bool → Text → List (Text × Text) → List (Text × Text)
put_cors_headers cors request preflight origin headers =
    let headers' =
      set_header (codes "Access-Control-Allow-Headers") (allowed_headers cors request preflight) (
        set_header (codes "Vary") (codes "Origin") (
          set_header (codes "Access-Control-Allow-Methods") allow_methods
            (set_header (codes "Access-Control-Allow-Origin") origin headers))) in
    if preflight
    then set_header (codes "Access-Control-Max-Age") (codes "86400") headers'
    else headers'

-- The null request is `none`.
unfoldable pub apply_cors_headers :
    List (Text × Text) → CorsConfig → Option Request → Bool → List (Text × Text)
apply_cors_headers headers cors none preflight = headers
apply_cors_headers headers cors (some request) preflight =
    if not cors.enabled || not (matches_path cors request.path)
    then headers
    else elim (resolve_origin cors (get_header_view request.headers (codes "origin"))) [
      | none ↦ headers
      | some origin ↦ put_cors_headers cors request preflight origin headers
    ]

-- ===== src/Http/Request.antt =====
-- src/data/HTTPRequest.cpp: the parse of a request from the wire. The body is the part of the text
-- behind the headers; a JSON body is parsed with a count of rounds.
pub mod Decoding
use geruest.Prelude.{
  ℕ, ◌+◌, ◌-◌, ◌*◌, ◌%◌, Bool, true, false, ◌&&◌, ◌||◌, not, List, [], ◌∷◌, Option, none, some,
  Text, codes, is_empty, find_byte, has_value, length, take, drop, get_or, map, leb, ◌==◌,
  if◌then◌else◌,
}
use geruest.Prelude.Assoc.{lookup, insert}
use geruest.Http.{is_space, ascii_lower, trim_sv, find_text, split_on}
use geruest.Http.Chunked.{hex_value}
use geruest.Http.Headers.{split_http_headers, strip_cr, lines_behind_first}
use geruest.Json.{JsonParser, parse_ok}
use geruest.Json.Parsing.{parsed, out_of_rounds, parse_json}
use geruest.Json.Getting.{get_string, get_keys}

pub record HttpRequest : Type 0 where
  pub method : Text
  pub path : Text
  pub raw_request_line : Text
  pub body : Text
  pub path_parts : List Text
  pub query_params : List (Text × Text)
  pub json_params : List (Text × Text)
  pub headers : List (Text × Text)
  pub cookies : List (Text × Text)
  pub origin : Text

abbrev pub or_else : ℕ → Option ℕ → ℕ
or_else d none = d
or_else d (some n) = n

-- `static_cast<char>(strtol(hex, nullptr, 16))` of two bytes: `strtol` passes over a blank, reads a
-- sign and stops at the first byte that is no digit.
unfoldable pub hex_pair : ℕ → ℕ → ℕ
unfolding hex_value
hex_pair a b = elim (hex_value a) [
  | some high ↦ elim (hex_value b) [ some low ↦ high * 16 + low | none ↦ high ]
  | none ↦
      if is_space a || a == b'+'
      then or_else 0 (hex_value b)
      else if a == b'-'
      then (256 - or_else 0 (hex_value b)) % 256
      else 0
]

unfoldable pub url_decode : Text → Text
unfolding hex_pair
url_decode [] = []
url_decode (c ∷ []) = (if c == b'+' then b' ' else c) ∷ []
url_decode (c ∷ a ∷ []) = (if c == b'+' then b' ' else c) ∷ url_decode (a ∷ [])
url_decode (c ∷ a ∷ b ∷ s) = elim (c == b'%') [
  | true ↦ hex_pair a b ∷ url_decode s
  | false ↦ (if c == b'+' then b' ' else c) ∷ url_decode (a ∷ b ∷ s)
]

-- The pieces that are not empty.
unfoldable pub not_empty : List Text → List Text
not_empty [] = []
not_empty (part ∷ parts) = let rest = not_empty parts in if is_empty part then rest else part ∷ rest

unfoldable pub split_path_segments : Text → List Text
unfolding not_empty split_on
split_path_segments path = not_empty (split_on b'/' path)

-- One parameter of the query.
unfoldable pub add_param : Text → List (Text × Text) → List (Text × Text)
unfolding url_decode
add_param p params = elim (find_byte b'=' p) [
  | some n ↦ insert (url_decode (take n p)) (url_decode (drop (n + 1) p)) params
  | none ↦ if is_empty p then params else insert (url_decode p) [] params
]

unfoldable pub add_params : List Text → List (Text × Text) → List (Text × Text)
unfolding add_param
add_params [] params = params
add_params (p ∷ pieces) params = add_params pieces (add_param p params)

-- `parsePathAndParams`
unfoldable pub parse_path_and_params : Text → HttpRequest → HttpRequest
unfolding add_params split_path_segments
parse_path_and_params target request = elim (find_byte b'?' target) [
  | none ↦ record request { path = target; path_parts = split_path_segments target }
  | some n ↦ record request {
    path = take n target;
    path_parts = split_path_segments (take n target);
    query_params = add_params (split_on b'&' (drop (n + 1) target)) request.query_params;
  }
]

-- `appendLowerNoWhitespace`
unfoldable pub lower_no_whitespace : Text → Text
lower_no_whitespace [] = []
lower_no_whitespace (c ∷ s) =
    let rest = lower_no_whitespace s in if is_space c then rest else ascii_lower c ∷ rest

unfoldable pub strip_quotes : Text → Text
strip_quotes s =
    let a = get_or s 0 0 in
    let b = get_or s (length s - 1) 0 in
    if leb 2 (length s) && ((a == b'"' && b == b'"') || (a == b'\'' && b == b'\''))
    then take (length s - 2) (drop 1 s)
    else s

-- A header line; the names in the map are lower-case, so `HeaderMapEq` is equality there.
unfoldable pub add_header : Text → List (Text × Text) → List (Text × Text)
unfolding lower_no_whitespace strip_quotes
add_header line headers = elim (find_byte b':' line) [
  | none ↦ headers
  | some n ↦
      insert (lower_no_whitespace (take n line)) (strip_quotes (trim_sv (drop (n + 1) line)))
        headers
]

unfoldable pub add_headers : List Text → List (Text × Text) → List (Text × Text)
unfolding add_header
add_headers [] headers = headers
add_headers (line ∷ lines) headers = add_headers lines (add_header (strip_cr line) headers)

unfoldable pub parse_headers : Text → List (Text × Text) → List (Text × Text)
unfolding add_headers lines_behind_first
parse_headers section headers = add_headers (lines_behind_first section) headers

unfoldable pub add_cookie : Text → List (Text × Text) → List (Text × Text)
add_cookie cookie cookies = elim (find_byte b'=' cookie) [
  | none ↦ cookies
  | some n ↦ insert (trim_sv (take n cookie)) (trim_sv (drop (n + 1) cookie)) cookies
]

unfoldable pub add_cookies : List Text → List (Text × Text) → List (Text × Text)
unfolding add_cookie
add_cookies [] cookies = cookies
add_cookies (cookie ∷ pieces) cookies = add_cookies pieces (add_cookie (trim_sv cookie) cookies)

unfoldable pub parse_cookies : Text → List (Text × Text) → List (Text × Text)
unfolding add_cookies split_on
parse_cookies header cookies = add_cookies (split_on b';' header) cookies

-- The loop over the keys of a JSON body.
unfoldable pub json_params_of : JsonParser → List Text → List (Text × Text) → List (Text × Text)
json_params_of parser [] params = params
json_params_of parser (key ∷ keys) params =
    json_params_of parser keys (insert key (get_string parser key) params)

-- `parseJsonBody`, of a parse that returns.
unfoldable pub json_body : JsonParser → List (Text × Text) → List (Text × Text)
unfolding json_params_of
json_body parser params =
    if parse_ok parser then json_params_of parser (get_keys parser) params else []

-- `find` in the header map, of a name in any case.
unfoldable pub find_header : List (Text × Text) → Text → Option Text
find_header headers key = lookup (map ascii_lower key) headers

abbrev pub or_empty : Option Text → Text
or_empty none = []
or_empty (some value) = value

unfoldable pub is_json_body : HttpRequest → Bool
is_json_body request =
    has_value (
      find_text (codes "application/json")
        (or_empty (find_header request.headers (codes "content-type"))))
    && not (is_empty request.body)

-- The rest of `parseHeadersAndBody`, behind the JSON body.
unfoldable pub with_origin_and_cookies : HttpRequest → HttpRequest
unfolding parse_cookies
with_origin_and_cookies request =
    let from = elim (find_header request.headers (codes "origin")) as (λ _. HttpRequest) [
      | none ↦ request
      | some value ↦ record request { origin = value }
    ] in
    elim (find_header request.headers (codes "cookie")) [
      | none ↦ from
      | some value ↦ record from { cookies = parse_cookies value from.cookies }
    ]

-- The body and the headers of the text.
unfoldable pub with_headers : Text → HttpRequest → HttpRequest
unfolding parse_headers
with_headers raw request = elim (split_http_headers raw) [
  | none ↦ record request { body = []; headers = parse_headers raw request.headers }
  | some split ↦ record request {
    body = drop split.header_section_end raw;
    headers =
        parse_headers (take (split.header_section_end - split.delimiter_length) raw)
          request.headers;
  }
]

-- `parseHeadersAndBody`; `none` where the parse of a JSON body does not return in these rounds.
unfoldable pub parse_headers_and_body : ℕ → Text → HttpRequest → Option HttpRequest
unfolding with_headers with_origin_and_cookies json_body is_json_body
parse_headers_and_body rounds raw request =
    let request' = with_headers raw request in
    if not (is_json_body request')
    then some (with_origin_and_cookies request')
    else elim (parse_json rounds request'.body) [
      | out_of_rounds ↦ none
      | parsed parser ↦ some (
          with_origin_and_cookies
            (record request' { json_params = json_body parser request'.json_params }))
    ]

-- `firstLine`
unfoldable pub first_line : Text → Text
first_line block = elim (find_byte 10 block) [ none ↦ block | some n ↦ strip_cr (take n block) ]

-- The method and the target of a request line.
unfoldable pub with_request_line : Text → HttpRequest → HttpRequest
unfolding parse_path_and_params
with_request_line line request = elim (find_byte b' ' line) [
  | none ↦ request
  | some n ↦
      let rest = drop (n + 1) line in
      let named = record request { method = take n line } in
      elim (find_byte b' ' rest) [
        | none ↦ parse_path_and_params rest named
        | some m ↦ parse_path_and_params (take m rest) named
      ]
]

abbrev pub no_request : HttpRequest
no_request = record {
  method = [];
  path = [];
  raw_request_line = [];
  body = [];
  path_parts = [];
  query_params = [];
  json_params = [];
  headers = [];
  cookies = [];
  origin = [];
}

unfoldable pub parse_from_wire : ℕ → Text → Option HttpRequest
unfolding parse_headers_and_body with_request_line first_line
parse_from_wire rounds raw =
    let line = first_line raw in
    parse_headers_and_body rounds raw
      (with_request_line line (record no_request { raw_request_line = line }))

unfoldable pub get_header : HttpRequest → Text → Text
get_header request key = or_empty (find_header request.headers key)

unfoldable pub has_header : HttpRequest → Text → Bool
has_header request key = has_value (find_header request.headers key)

unfoldable pub get_param : HttpRequest → Text → Text
get_param request name = elim (lookup name request.query_params) [
  | some value ↦ value
  | none ↦ elim (lookup name request.json_params) [
    | some value ↦ value
    | none ↦ or_empty (lookup name request.cookies)
  ]
]

unfoldable pub has_param : HttpRequest → Text → Bool
has_param request name =
    has_value (lookup name request.query_params)
    || has_value (lookup name request.json_params)
    || has_value (lookup name request.cookies)

unfoldable pub get_path : HttpRequest → ℕ → Text
get_path request index = get_or request.path_parts index []

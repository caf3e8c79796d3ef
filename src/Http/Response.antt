-- ===== src/Http/Response.antt =====
-- src/data/HTTPResponse.cpp: a response with its headers in the order they were added, and its text
-- on the wire. `eraseHeaderKey` and the list of `setHeader` are those of Cors.
pub mod Splitting
use geruest.Prelude.{
  ℕ, ◌+◌, Bool, true, false, ◌||◌, List, [], ◌∷◌, ◌++◌, Text, codes, text_eq, is_empty, length, map,
  if◌then◌else◌,
}
use geruest.Cors.{erase_header_key, set_header}
use geruest.Json.Numbers.{decimal}
use geruest.Http.Chunked.{crlf}

pub record HttpResponse : Type 0 where
  pub status : Text
  pub headers : List (Text × Text)
  pub body : Text

unfoldable pub has_header_key : List (Text × Text) → Text → Bool
has_header_key [] key = false
has_header_key ((name, value) ∷ headers) key = text_eq name key || has_header_key headers key

-- The constructor.
unfoldable pub new_response : Text → HttpResponse
new_response status = record {
  status = status;
  headers =
      (codes "Content-Type", codes "text/html")
      ∷ (codes "Connection", codes "Keep-Alive")
      ∷ (codes "Keep-Alive", codes "timeout=5, max=100")
      ∷ [];
  body = [];
}

-- `setHeader`
unfoldable pub with_header : Text → Text → HttpResponse → HttpResponse
unfolding set_header
with_header key value response = record response { headers = set_header key value response.headers }

-- `addHeader`
unfoldable pub with_added_header : Text → Text → HttpResponse → HttpResponse
with_added_header key value response = record response {
  headers = response.headers ++ (key, value) ∷ [];
}

abbrev pub content_length : Text
content_length = codes "Content-Length"

-- `setBody`
unfoldable pub with_body : Text → HttpResponse → HttpResponse
unfolding set_header
with_body body response = record response {
  headers = set_header content_length (decimal (length body)) response.headers;
  body = body;
}

unfoldable pub value_of_header : List (Text × Text) → Text → Text
value_of_header [] key = []
value_of_header ((name, value) ∷ headers) key =
    if text_eq name key then value else value_of_header headers key

unfoldable pub get_header_value : HttpResponse → Text → Text
unfolding value_of_header
get_header_value response key = value_of_header response.headers key

-- The lines, each with its line end, then an empty line and what follows it.
unfoldable pub lines_text : List Text → Text → Text
lines_text [] tail = crlf ++ tail
lines_text (line ∷ lines) tail = line ++ (crlf ++ lines_text lines tail)

abbrev pub header_line : Text × Text → Text
header_line (name, value) = name ++ (codes ": " ++ value)

-- The line that is added where the headers have no content length.
unfoldable pub length_lines : HttpResponse → List Text
length_lines response =
    if has_header_key response.headers content_length
    then []
    else (codes "Content-Length: "
        ++ (if is_empty response.body then codes "0" else decimal (length response.body)))
      ∷ []

unfoldable pub response_lines : HttpResponse → List Text
unfolding length_lines
response_lines response =
    (codes "HTTP/1.1 " ++ response.status)
    ∷ (map header_line response.headers ++ length_lines response)

-- `serializeTo`, and `toString`
unfoldable pub serialize : HttpResponse → Text
unfolding response_lines lines_text
serialize response = lines_text (response_lines response) response.body

unfoldable pub build_header : Text → Text → Text → Text
unfolding serialize with_header new_response
build_header status content_type size = serialize (
    with_header content_length size
      (with_header (codes "Content-Type") content_type (new_response status)))

unfoldable pub add_default_headers : HttpResponse → HttpResponse
unfolding with_header
add_default_headers response = with_header (codes "Content-Type") (codes "text/plain") (
    with_header (codes "Cache-Control") (codes "no-cache") (
      with_header (codes "Keep-Alive") (codes "timeout=5, max=100")
        (with_header (codes "Connection") (codes "Keep-Alive") response)))

unfoldable pub build_response : Text → Text → HttpResponse
unfolding with_body add_default_headers new_response
build_response status body = with_body body (add_default_headers (new_response status))

-- The responses whose body is their status, as `responseOK`.
unfoldable pub status_response : Text → HttpResponse
unfolding build_response
status_response status = build_response status status

-- The texts of `buildForbiddenHeader` and its like, by their status.
unfoldable pub build_status_header : Text → Text
unfolding serialize with_body new_response
build_status_header status = serialize (with_body status (new_response status))

unfoldable pub build_auth_header : Text
unfolding serialize with_body with_header new_response
build_auth_header = serialize (
    with_body (codes "401 Unauthorized") (
      with_header (codes "WWW-Authenticate") (codes "Basic realm=\"Restricted Area\"")
        (new_response (codes "401 Unauthorized"))))

-- `responseBadRequest`
abbrev pub response_bad_request : HttpResponse
response_bad_request = build_response (codes "400 Bad Request") (codes "400 Bad Request")

unfoldable pub response_unauthorized_basic_auth : Text → HttpResponse
unfolding with_body with_header add_default_headers new_response
response_unauthorized_basic_auth realm =
    with_body (codes "401 Unauthorized - Authentication Required") (
      with_header (codes "WWW-Authenticate") (codes "Basic realm=\"" ++ (realm ++ b'"' ∷ []))
        (add_default_headers (new_response (codes "401 Unauthorized"))))

-- `responseMethodNotAllowed` with the methods that are allowed.
unfoldable pub response_method_not_allowed : Text → HttpResponse
unfolding with_header build_response
response_method_not_allowed allow_methods =
    let response =
      build_response (codes "405 Method Not Allowed") (codes "405 Method Not Allowed") in
    if is_empty allow_methods then response else with_header (codes "Allow") allow_methods response

-- ===== src/Http/Tests.antt =====
-- Runs of the reading of requests, and instances of the theorems about it.
use geruest.Prelude.{
  ◌+◌, ◌-◌, ◌≡◌, refl, true, List, [], ◌∷◌, ◌++◌, some, Text, codes, length, take, All, arith,
}
use geruest.Http.{find_text, ascii_lower, is_space, trim_sv, trim_start}
use geruest.Http.Chunked.{
  ends, out_of_rounds, find_chunked_body_end, chunk_size, hex_value, hex_number, before_semicolon,
}
use geruest.Http.Chunked.Body.{
  Chunk, IsChunk, encode_body, find_chunked_body_end-encode_body, find_chunked_body_end-loops,
}
use geruest.Http.Headers.{
  split_http_headers, split_at_first, strip_cr, parse_header_preflight, parse_content_length_bytes,
}
use geruest.Http.Response.{HttpResponse, serialize}
use geruest.Http.Response.Splitting.{
  is_line, is_line-IsLine, AreFields, split_http_headers-serialize,
}
use geruest.Http.Request.{find_header, parse_from_wire, url_decode}
use geruest.Http.Request.Decoding.{url_encode, url_decode-encode}
use geruest.Json.Reading.{skip_white_space, is_white_space, read_key, read_data}
use geruest.Json.Parsing.{parse_json, after_member, finish_parse}
use geruest.Prelude.Assoc.{lookup, insert}
use geruest.Json.Getting.{get_keys, get_string}
use geruest.Http.Framing.{HttpFraming, request, read_next_request}
use geruest.Http.Framing.Complete.{IsPlain, read_next_request_complete}
use geruest.Http.Framing.Bytes.{Takes, unread, read_next_request-Takes}

abbrev two_chunks : List Chunk
two_chunks =
    (record { line = codes "3;x=y"; bytes = codes "abc" })
    ∷ (record { line = codes " 1 "; bytes = codes "\n" })
    ∷ []

abbrev chunked : Text
chunked = codes "xx" ++ (encode_body two_chunks (codes "0") ++ codes "GET")

chunk_size_tests :
    (chunk_size (codes "3;x=y") ≡ some 3)
    × (chunk_size (codes " 1 ") ≡ some 1)
    × (chunk_size (codes "0") ≡ some 0)
unfolding chunk_size hex_number hex_value before_semicolon trim_sv trim_start is_space
chunk_size_tests = (refl, refl, refl)

find_chunked_body_end-encode_body_example :
    find_chunked_body_end 3 chunked 2
    ≡ ends (some (2 + length (encode_body two_chunks (codes "0"))))
find_chunked_body_end-encode_body_example =
    find_chunked_body_end-encode_body chunked (omega arith) two_chunks (codes "0") (codes "GET") 2 3
      two_chunks-IsChunk (omega arith, tt) chunk_size_tests.2 refl (omega arith) (omega arith)
  where
    two_chunks-IsChunk : All IsChunk two_chunks
    two_chunks-IsChunk = (
      record {
        sized = chunk_size_tests.0;
        no_cr = (omega arith, (omega arith, (omega arith, (omega arith, (omega arith, tt)))));
        filled = omega arith;
      },
      (
        record {
          sized = chunk_size_tests.1;
          no_cr = (omega arith, (omega arith, (omega arith, tt)));
          filled = omega arith;
        },
        tt,
      ),
    )

find_chunked_body_end-loops_example :
    find_chunked_body_end 1000 (codes "\r\nffffffffffffffec\r\n") 2 ≡ out_of_rounds
find_chunked_body_end-loops_example =
    find_chunked_body_end-loops 1000 (codes "\r\nffffffffffffffec\r\n") [] 2 (omega arith)
      (omega arith) refl refl (omega arith)

-- Two requests in three reads.
abbrev two_requests : HttpFraming
two_requests = record {
  pending_request_data = [];
  message_count = 0;
  reads = codes "POST / HTTP/1.1\r\nContent-Le" ∷ codes "ngth: 2\r\n\r\nok" ∷ codes "GET" ∷ [];
  sent = [];
}

read_next_request-Takes_example :
    Takes (unread two_requests) (read_next_request (λ t. true) (codes "400") 5 0 two_requests)
read_next_request-Takes_example = read_next_request-Takes (λ t. true) (codes "400") 5 0 two_requests

-- A body that looks like the end of a header section.
abbrev response_ok : HttpResponse
response_ok = record {
  status = codes "200 OK";
  headers = (codes "Server", codes "g") ∷ [];
  body = codes "\r\n\r\n";
}

split_http_headers-serialize_example :
    split_http_headers (serialize response_ok)
    ≡ some (record {
      header_section_end = length (serialize response_ok) - length response_ok.body;
      delimiter_length = 4;
    })
unfolding AreFields
split_http_headers-serialize_example =
    split_http_headers-serialize response_ok
      (is_line-IsLine (codes "200 OK") (unfold is_line in refl))
      (
        (
          is_line-IsLine (codes "Server") (unfold is_line in refl),
          is_line-IsLine (codes "g") (unfold is_line in refl),
        ),
        tt,
      )

url_decode-encode_example : url_decode (url_encode (codes "a b/%+")) ≡ codes "a b/%+"
url_decode-encode_example =
    url_decode-encode (codes "a b/%+")
      (omega arith, (omega arith, (omega arith, (omega arith, (omega arith, (omega arith, tt))))))

-- A request with a query, a header with quotes and a JSON body.
abbrev posted : Text
posted =
    codes
      "POST /a//b?x=%31+2&y HTTP/1.1\r\nContent-Type: application/json\r\nX-A : \"q\"\r\n\r\n{\"k\":1}"

parse_from_wire_test :
    parse_from_wire 40 posted
    ≡ some (record {
      method = codes "POST";
      path = codes "/a//b";
      raw_request_line = codes "POST /a//b?x=%31+2&y HTTP/1.1";
      body = codes "{\"k\":1}";
      path_parts = codes "a" ∷ codes "b" ∷ [];
      query_params = (codes "x", codes "1 2") ∷ (codes "y", []) ∷ [];
      json_params = (codes "k", codes "1") ∷ [];
      headers = (codes "content-type", codes "application/json") ∷ (codes "x-a", codes "q") ∷ [];
      cookies = [];
      origin = [];
    })
unfolding parse_from_wire find_text find_header lookup split_http_headers strip_cr insert is_space
    ascii_lower trim_sv parse_json skip_white_space is_white_space read_key after_member read_data
    finish_parse get_keys get_string
parse_from_wire_test = refl

-- The header section is there, and the body arrives in two reads with a part of the next request.
abbrev body_arriving : HttpFraming
body_arriving = record {
  pending_request_data = codes "PUT / HTTP/1.1\r\nContent-Length: 3\r\n\r\na";
  message_count = 7;
  reads = codes "b" ∷ codes "cGET" ∷ [];
  sent = [];
}

body_arriving-split :
    split_http_headers body_arriving.pending_request_data
    ≡ some (record { header_section_end = 37; delimiter_length = 4 })
unfolding split_http_headers split_at_first find_text
body_arriving-split = refl

body_arriving-IsPlain :
    IsPlain (parse_header_preflight (take 37 body_arriving.pending_request_data)) 3
unfolding parse_header_preflight strip_cr is_space ascii_lower trim_sv parse_content_length_bytes
body_arriving-IsPlain = record {
  no_expect = refl;
  no_encoding = refl;
  sized = refl;
  number = refl;
  small = omega arith;
}

read_next_request_complete_example :
    (read_next_request (λ t. true) (codes "400") 5 0 body_arriving).0
    ≡ request (take (37 + 3) (unread body_arriving))
read_next_request_complete_example =
    read_next_request_complete (λ t. true) (codes "400") 5 3 body_arriving
      (record { header_section_end = 37; delimiter_length = 4 }) body_arriving-split
      body_arriving-IsPlain (refl, (refl, tt)) (omega arith)

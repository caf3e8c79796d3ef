-- ===== src/Dispatch/Compression/Tests.antt =====
-- Runs of the choice of what is compressed, and an instance of the theorem about it. A function that
-- keeps the first bytes stands for zlib.
use geruest.Prelude.{ℕ, ◌≡◌, ◌⊎◌, refl, true, false, [], ◌∷◌, Option, some, Text, codes, take}
use geruest.Cors.{get_header_view, header_to_lower}
use geruest.Http.{ascii_lower, trim_sv, trim_start, is_space, split_on}
use geruest.Http.Chunked.{before_semicolon}
use geruest.Http.Request.{HttpRequest, no_request}
use geruest.Http.Response.{HttpResponse, has_header_key, value_of_header, get_header_value}
use geruest.Dispatch.Compression.{
  iequals_ascii, any_gzip, accepts_gzip, is_compressible_content_type, is_compressed,
  apply_response_compression,
}
use geruest.Dispatch.Compression.Fields.{IsCompressionOf, apply_response_compression_cases}

abbrev repeated : ℕ → Text
repeated ℕ.zero = []
repeated (ℕ.suc n) = b'a' ∷ repeated n

abbrev page : HttpResponse
page = record {
  status = codes "200 OK";
  headers =
      (codes "Content-Type", codes "Text/HTML; charset=utf-8")
      ∷ (codes "Vary", codes "Origin")
      ∷ [];
  body = repeated 1024;
}

abbrev asking : HttpRequest
asking = record no_request { headers = (codes "accept-encoding", codes "br, GZIP;q=0") ∷ [] }

abbrev keep_ten : Text → Option Text
keep_ten bytes = some (take 10 bytes)

-- A quality of 0, by which a client refuses gzip, is not read.
compression_tests :
    (accepts_gzip (codes "br, GZIP;q=0") ≡ true)
    × (accepts_gzip (codes "deflate") ≡ false)
    × (is_compressible_content_type (codes "Text/HTML; charset=utf-8") ≡ true)
    × (is_compressible_content_type (codes "image/png") ≡ false)
    × (is_compressed page asking ≡ true)
unfolding iequals_ascii any_gzip accepts_gzip is_compressible_content_type is_compressed ascii_lower
    trim_sv trim_start is_space split_on before_semicolon has_header_key value_of_header
    get_header_value get_header_view header_to_lower
compression_tests = (refl, refl, refl, refl, refl)

apply_response_compression_cases_example :
    (apply_response_compression keep_ten asking page ≡ page)
    ⊎ IsCompressionOf keep_ten page (apply_response_compression keep_ten asking page)
apply_response_compression_cases_example = apply_response_compression_cases keep_ten asking page

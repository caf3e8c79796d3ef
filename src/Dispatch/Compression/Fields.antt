-- ===== src/Dispatch/Compression/Fields.antt =====
-- src/handler/GzipResponse.cpp: the body and the header fields of a compressed response.
use geruest.Prelude.{
  ◌≡◌, ◌<◌, ◌⊎◌, refl, ap, ◌∙◌, inl, inr, false, not, List, [], ◌∷◌, ◌++◌, Option, none, some, Text,
  codes, text_eq, text_eq_iff, text_eq_refl, length, leb, if_elim, Bool-cases, arith,
}
use geruest.Cors.{set_header, erase_header_key}
use geruest.Json.Numbers.{decimal}
use geruest.Http.Request.{HttpRequest}
use geruest.Http.Response.{
  HttpResponse, content_length, with_header, with_body, value_of_header, get_header_value,
}
use geruest.Dispatch.Compression.{
  is_compressed, compressed_response, after_gzip, apply_response_compression,
}

-- A field that was erased is not there; the others keep their values.
value_of_header-erase_append :
    (headers : List (Text × Text)) (key value : Text)
    → value_of_header (erase_header_key headers key ++ (key, value) ∷ []) key ≡ value
unfolding value_of_header erase_header_key
value_of_header-erase_append [] key value = ground (arith, text_eq_refl key)
value_of_header-erase_append ((name, v) ∷ headers) key value =
    ground (arith, value_of_header-erase_append headers key value)

value_of_header-set_same :
    (key value : Text) (headers : List (Text × Text))
    → value_of_header (set_header key value headers) key ≡ value
unfolding set_header
value_of_header-set_same key value headers = value_of_header-erase_append headers key value

value_of_header-erase_append_other :
    (headers : List (Text × Text)) (key value other : Text)
    → text_eq key other ≡ false
    → value_of_header (erase_header_key headers key ++ (key, value) ∷ []) other
      ≡ value_of_header headers other
unfolding value_of_header erase_header_key
value_of_header-erase_append_other [] key value other h = ground (arith, h)
value_of_header-erase_append_other ((name, v) ∷ headers) key value other h =
    elim (Bool-cases (text_eq name key)) [
      | inl e ↦
          let same : name ≡ key = (text_eq_iff name key).0 e in
          let differ : text_eq name other ≡ false = ap (λ n. text_eq n other) same ∙ h in
          ground (arith, e, differ, value_of_header-erase_append_other headers key value other h)
      | inr e ↦ ground (arith, e, value_of_header-erase_append_other headers key value other h)
    ]

value_of_header-set_other :
    (key value other : Text) (headers : List (Text × Text))
    → text_eq key other ≡ false
    → value_of_header (set_header key value headers) other ≡ value_of_header headers other
unfolding set_header
value_of_header-set_other key value other headers h =
    value_of_header-erase_append_other headers key value other h

-- A response that was compressed from another.
pub record IsCompressionOf (gzip_compress : Text → Option Text) (response : HttpResponse)
    (result : HttpResponse) : Type 0 where
  pub gzip : gzip_compress response.body ≡ some result.body
  pub shorter : length result.body < length response.body
  pub encoding : get_header_value result (codes "Content-Encoding") ≡ codes "gzip"
  pub sized : get_header_value result content_length ≡ decimal (length result.body)
  pub vary : get_header_value result (codes "Vary") ≡ codes "Accept-Encoding"

compressed_response-IsCompressionOf :
    (gzip_compress : Text → Option Text) (response : HttpResponse) (compressed : Text)
    → gzip_compress response.body ≡ some compressed
    → length compressed < length response.body
    → IsCompressionOf gzip_compress response (compressed_response response compressed)
unfolding compressed_response with_header with_body get_header_value
compressed_response-IsCompressionOf gzip_compress response compressed h lt = record {
  gzip = h;
  shorter = lt;
  encoding =
      value_of_header-set_other (codes "Vary") (codes "Accept-Encoding") (codes "Content-Encoding")
        _ refl
      ∙ value_of_header-set_same (codes "Content-Encoding") (codes "gzip") _;
  sized =
      value_of_header-set_other (codes "Vary") (codes "Accept-Encoding") content_length _ refl
      ∙ value_of_header-set_other (codes "Content-Encoding") (codes "gzip") content_length _ refl
      ∙ value_of_header-set_same content_length (decimal (length compressed)) response.headers;
  vary = value_of_header-set_same (codes "Vary") (codes "Accept-Encoding") _;
}

after_gzip_cases :
    (gzip_compress : Text → Option Text) (response : HttpResponse) (output : Option Text)
    → gzip_compress response.body ≡ output
    → (after_gzip response output ≡ response)
      ⊎ IsCompressionOf gzip_compress response (after_gzip response output)
unfolding after_gzip
after_gzip_cases gzip_compress response none h = inl refl
after_gzip_cases gzip_compress response (some compressed) h =
    if_elim (λ result. (result ≡ response) ⊎ IsCompressionOf gzip_compress response result)
      (leb (length response.body) (length compressed)) _ _ (λ _. inl refl)
      (λ long. inr (
        compressed_response-IsCompressionOf gzip_compress response compressed h
          (ground (arith, long))))

-- Compression leaves a response as it is, or makes its body the output of zlib, which is shorter
-- then, with the length of that body, the encoding `gzip`, and a `Vary` that names only
-- `Accept-Encoding`, whatever it named before.
pub apply_response_compression_cases :
    (gzip_compress : Text → Option Text) (request : HttpRequest) (response : HttpResponse)
    → (apply_response_compression gzip_compress request response ≡ response)
      ⊎ IsCompressionOf gzip_compress response
          (apply_response_compression gzip_compress request response)
unfolding apply_response_compression
apply_response_compression_cases gzip_compress request response =
    if_elim (λ result. (result ≡ response) ⊎ IsCompressionOf gzip_compress response result)
      (not (is_compressed response request)) _ _ (λ _. inl refl)
      (λ _. after_gzip_cases gzip_compress response (gzip_compress response.body) refl)

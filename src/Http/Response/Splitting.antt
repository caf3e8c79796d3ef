-- ===== src/Http/Response/Splitting.antt =====
-- src/data/HTTPResponse.cpp: what `splitHttpHeaders` makes of the text of a response.
use geruest.Prelude.{
  ℕ, ◌+◌, ◌-◌, ◌≤◌, ◌≡◌, ◌≢◌, not, if_elim, refl, ap, ◌∙◌, Bool, true, false, ◌&&◌, List, [], ◌∷◌,
  ◌++◌, some, Text, All, All-append, codes, is_empty, length, length-append, map, ◌==◌,
  text_eq_refl, arith,
}
use geruest.Cors.{erase_header_key, set_header}
use geruest.Json.Reading.{is_digit}
use geruest.Json.Numbers.{digits, decimal}
use geruest.Json.Numbers.Decimal.{digits-All}
use geruest.Http.{find_text}
use geruest.Http.Chunked.{crlf}
use geruest.Http.Headers.{split_http_headers, split_at_first}
use geruest.Http.Response.{
  HttpResponse, has_header_key, with_body, content_length, get_header_value, value_of_header,
  lines_text, header_line, length_lines, response_lines, serialize,
}

-- A text without a carriage return.
pub IsLine : Text → Type 0
IsLine line = All (λ d. d ≢ 13) line

unfoldable pub is_line : Text → Bool
is_line [] = true
is_line (d ∷ s) = not (d == 13) && is_line s

pub is_line-IsLine : (s : Text) → is_line s ≡ true → IsLine s
unfolding is_line IsLine
is_line-IsLine [] h = tt
is_line-IsLine (d ∷ s) h = (ground arith, is_line-IsLine s (ground arith))

append-IsLine : (s t : Text) → IsLine s → IsLine t → IsLine (s ++ t)
unfolding IsLine
append-IsLine s t h k = All-append (λ d. d ≢ 13) s t h k

abbrev blank_line : Text
blank_line = 13 ∷ 10 ∷ 13 ∷ 10 ∷ []

-- The line before a blank line.
find-last_line :
    (line tail : Text)
    → IsLine line
    → find_text blank_line (line ++ (crlf ++ (crlf ++ tail))) ≡ some (length line)
unfolding find_text IsLine
find-last_line [] tail h = refl
find-last_line (c ∷ line) tail (d, h) = ground (arith, find-last_line line tail h)

-- A line before another.
find-line :
    (line : Text) (d : ℕ) (rest : Text) (k : ℕ)
    → IsLine line
    → d ≢ 13
    → find_text blank_line (d ∷ rest) ≡ some k
    → find_text blank_line (line ++ (crlf ++ d ∷ rest)) ≡ some (length line + 2 + k)
unfolding find_text IsLine
find-line [] d rest k h n e = ground (arith, e)
find-line (c ∷ line) d rest k (m, h) n e = ground (arith, find-line line d rest k h n e)

-- Lines that are not empty.
pub AreLines : List Text → Type 0
AreLines lines = All (λ line. IsLine line × (is_empty line ≡ false)) lines

length-lines_text :
    (lines : List Text) (tail : Text)
    → length (lines_text lines tail) ≡ length (lines_text lines []) + length tail
unfolding lines_text
length-lines_text [] tail = omega arith
length-lines_text (line ∷ lines) tail = omega (
  arith,
  length-lines_text lines tail,
  length-append line (crlf ++ lines_text lines tail),
  length-append line (crlf ++ lines_text lines []),
)

lines_text-filled : (line : Text) (lines : List Text) → 4 ≤ length (lines_text (line ∷ lines) [])
unfolding lines_text
lines_text-filled line [] = omega (arith, length-append line (crlf ++ (crlf ++ [])))
lines_text-filled line (next ∷ lines) =
    omega (
      arith,
      lines_text-filled next lines,
      length-append line (crlf ++ lines_text (next ∷ lines) []),
    )

find-lines_text :
    (line : Text) (lines : List Text) (tail : Text)
    → IsLine line
    → AreLines lines
    → find_text blank_line (lines_text (line ∷ lines) tail)
      ≡ some (length (lines_text (line ∷ lines) []) - 4)
unfolding lines_text AreLines IsLine
find-lines_text line [] tail h g =
    find-last_line line tail h ∙ ap some (omega (arith, length-append line (crlf ++ (crlf ++ []))))
find-lines_text line ([] ∷ lines) tail h ((k, filled), g) = cc
find-lines_text line ((d ∷ next) ∷ lines) tail h ((k, filled), g) =
    let rest = find-lines_text (d ∷ next) lines tail k g in
    let enough = lines_text-filled (d ∷ next) lines in
    let size = length-append line (crlf ++ lines_text ((d ∷ next) ∷ lines) []) in
    find-line line d (next ++ (crlf ++ lines_text lines tail))
      (length (lines_text ((d ∷ next) ∷ lines) []) - 4) h k.0 rest
    ∙ ap some (omega (arith, enough, size))

decimal-IsLine : (n : ℕ) → IsLine (decimal n)
unfolding decimal IsLine is_digit
decimal-IsLine n = no_cr (digits (n + 1) n) (digits-All (n + 1) n)
  where
    no_cr : (s : Text) → All (λ c. is_digit c ≡ true) s → IsLine s
    no_cr [] h = tt
    no_cr (c ∷ s) (e, h) = (ground arith, no_cr s h)

header_line-IsLine :
    (name value : Text) → IsLine name → IsLine value → IsLine (header_line (name, value))
header_line-IsLine name value h k =
    append-IsLine name (codes ": " ++ value) h
      (append-IsLine (codes ": ") value (is_line-IsLine (codes ": ") (unfold is_line in refl)) k)

-- The names and the values of the headers.
unfoldable pub AreFields : List (Text × Text) → Type 0
AreFields headers = All (λ h. IsLine h.0 × IsLine h.1) headers

header_lines-AreLines :
    (headers : List (Text × Text)) → AreFields headers → AreLines (map header_line headers)
unfolding AreLines AreFields
header_lines-AreLines [] h = tt
header_lines-AreLines ((name, value) ∷ headers) ((h, k), g) =
    ((header_line-IsLine name value h k, filled name), header_lines-AreLines headers g)
  where
    filled : (s : Text) → is_empty (header_line (s, value)) ≡ false
    filled [] = refl
    filled (c ∷ s) = refl

length_lines-AreLines : (response : HttpResponse) → AreLines (length_lines response)
unfolding length_lines AreLines
length_lines-AreLines response =
    if_elim AreLines (has_header_key response.headers content_length) _ _ (λ _. tt)
      (λ _. (
        (
          append-IsLine (codes "Content-Length: ") _
              (is_line-IsLine (codes "Content-Length: ") (unfold is_line in refl))
              (if_elim IsLine (is_empty response.body) (codes "0") (decimal (length response.body))
                (λ _. is_line-IsLine (codes "0") (unfold is_line in refl))
                (λ _. decimal-IsLine (length response.body))),
          refl,
        ),
        tt,
      ))

split-lines_text :
    (line : Text) (lines : List Text) (tail : Text)
    → IsLine line
    → AreLines lines
    → split_http_headers (lines_text (line ∷ lines) tail)
      ≡ some (record {
        header_section_end = length (lines_text (line ∷ lines) tail) - length tail;
        delimiter_length = 4;
      })
unfolding split_http_headers split_at_first
split-lines_text line lines tail h g =
    let headers = length (lines_text (line ∷ lines) []) in
    let end : headers - 4 + 4 ≡ length (lines_text (line ∷ lines) tail) - length tail =
      omega (arith, lines_text-filled line lines, length-lines_text (line ∷ lines) tail) in
    rw (find-lines_text line lines tail h g, split_http_headers, split_at_first)
      (ap (λ (n : ℕ). some (record { header_section_end = n; delimiter_length = 4 })) end)

-- The reader of header sections ends the header section of a response exactly where its body
-- begins, whatever the body holds, if the status and the headers have no carriage return.
pub split_http_headers-serialize :
    (response : HttpResponse)
    → IsLine response.status
    → AreFields response.headers
    → split_http_headers (serialize response)
      ≡ some (record {
        header_section_end = length (serialize response) - length response.body;
        delimiter_length = 4;
      })
unfolding serialize response_lines
split_http_headers-serialize response h g =
    let status =
      append-IsLine (codes "HTTP/1.1 ") response.status
        (is_line-IsLine (codes "HTTP/1.1 ") (unfold is_line in refl)) h in
    split-lines_text (codes "HTTP/1.1 " ++ response.status)
      (map header_line response.headers ++ length_lines response) response.body status
      (unfold AreLines in
        All-append _ (map header_line response.headers) (length_lines response)
          (header_lines-AreLines response.headers g) (length_lines-AreLines response))

value_of_header-erase :
    (key : Text) (headers added : List (Text × Text))
    → value_of_header (erase_header_key headers key ++ added) key ≡ value_of_header added key
unfolding value_of_header erase_header_key
value_of_header-erase key [] added = refl
value_of_header-erase key ((name, value) ∷ headers) added =
    ground (arith, value_of_header-erase key headers added)

has_header_key-added :
    (key value : Text) (headers : List (Text × Text))
    → has_header_key (headers ++ (key, value) ∷ []) key ≡ true
unfolding has_header_key
has_header_key-added key value [] = rw (text_eq_refl key) refl
has_header_key-added key value ((name, v) ∷ headers) =
    ground (arith, has_header_key-added key value headers)

-- After `setBody` the content length is that of the body, and the text has no second one.
with_body-length :
    (body : Text) (response : HttpResponse)
    → (get_header_value (with_body body response) content_length ≡ decimal (length body))
      × (length_lines (with_body body response) ≡ [])
unfolding get_header_value with_body set_header length_lines value_of_header
with_body-length body response =
    let kept = erase_header_key response.headers content_length in
    (
      value_of_header-erase content_length response.headers
          ((content_length, decimal (length body)) ∷ []),
      rw (has_header_key-added content_length (decimal (length body)) kept) refl,
    )

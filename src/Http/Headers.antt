-- ===== src/Http/Headers.antt =====
-- src/data/HTTPRequest.cpp and HTTPRequest.hpp: the header section of a request, and the headers
-- that framing needs before the body is there.
use geruest.Prelude.{
  ℕ, ◌+◌, ◌-◌, ◌*◌, Bool, true, false, ◌&&◌, ◌||◌, not, List, [], ◌∷◌, Option, none, some, Text,
  codes, text_eq, is_empty, find_byte, length, take, drop, map, ltb, leb, ◌==◌, if◌then◌else◌,
  starts_with,
}
use geruest.Http.{is_space, ascii_lower, trim_start, trim_sv, find_text, split_on}
use geruest.Http.Chunked.{size_limit}

pub record HttpHeaderSplit : Type 0 where
  pub header_section_end : ℕ
  pub delimiter_length : ℕ

-- The search for one delimiter, and for the others where it is not found.
unfoldable pub split_at_first : List Text → Text → Option HttpHeaderSplit
unfolding find_text
split_at_first [] raw = none
split_at_first (delimiter ∷ delimiters) raw = elim (find_text delimiter raw) [
  | some n ↦
      some
        (record { header_section_end = n + length delimiter; delimiter_length = length delimiter })
  | none ↦ split_at_first delimiters raw
]

abbrev pub delimiters : List Text
delimiters = (13 ∷ 10 ∷ 13 ∷ 10 ∷ []) ∷ (10 ∷ 10 ∷ []) ∷ (13 ∷ 13 ∷ []) ∷ []

unfoldable pub split_http_headers : Text → Option HttpHeaderSplit
unfolding split_at_first
split_http_headers raw = split_at_first delimiters raw

-- `iequalsAsciiNoSpace`: equal without regard to case and white space. Its two indices are the two
-- texts that are left.
unfoldable pub iequals_ascii_no_space : Text → Text → Bool
unfolding trim_start
iequals_ascii_no_space [] b = is_empty (trim_start b)
iequals_ascii_no_space (c ∷ a) b = elim (is_space c) [
  | true ↦ iequals_ascii_no_space a b
  | false ↦ elim (trim_start b) [
    | [] ↦ false
    | d ∷ b' ↦ ascii_lower c == ascii_lower d && iequals_ascii_no_space a b'
  ]
]

-- `line.remove_suffix(1)` of a carriage return.
unfoldable pub strip_cr : Text → Text
strip_cr [] = []
strip_cr (c ∷ []) = if c == 13 then [] else c ∷ []
strip_cr (c ∷ d ∷ line) = c ∷ strip_cr (d ∷ line)

-- The lines behind the first line feed.
unfoldable pub lines_behind_first : Text → List Text
unfolding split_on
lines_behind_first block = elim (split_on 10 block) [ [] ↦ [] | line ∷ lines ↦ lines ]

pub record HeaderPreflight : Type 0 where
  pub expect : Text
  pub content_length : Text
  pub transfer_encoding : Text

-- The tests on one header line.
unfoldable pub note_header : HeaderPreflight → Text → Text → HeaderPreflight
unfolding iequals_ascii_no_space
note_header out key value =
    if is_empty out.expect && iequals_ascii_no_space key (codes "expect")
    then record out { expect = value }
    else if is_empty out.content_length && iequals_ascii_no_space key (codes "content-length")
    then record out { content_length = value }
    else if is_empty out.transfer_encoding && iequals_ascii_no_space key (codes "transfer-encoding")
    then record out { transfer_encoding = value }
    else out

unfoldable pub note_line : HeaderPreflight → Text → HeaderPreflight
unfolding note_header
note_line out line = elim (find_byte b':' line) [
  | none ↦ out
  | some n ↦ note_header out (take n line) (trim_sv (drop (n + 1) line))
]

abbrev pub is_complete : HeaderPreflight → Bool
is_complete out =
    not (is_empty out.expect)
    && not (is_empty out.content_length)
    && not (is_empty out.transfer_encoding)

-- The loop; it ends early once all three are found, behind a line with a colon. The value at the
-- start is not complete, and a line without a colon changes nothing, so the test can stand behind
-- every line.
unfoldable pub preflight_loop : HeaderPreflight → List Text → HeaderPreflight
unfolding note_line
preflight_loop out [] = out
preflight_loop out (line ∷ lines) =
    let out' = note_line out (strip_cr line) in
    let rest = preflight_loop out' lines in if is_complete out' then out' else rest

abbrev pub no_headers : HeaderPreflight
no_headers = record { expect = []; content_length = []; transfer_encoding = [] }

unfoldable pub parse_header_preflight : Text → HeaderPreflight
unfolding preflight_loop lines_behind_first
parse_header_preflight prefix = preflight_loop no_headers (lines_behind_first prefix)

-- `from_chars` in base 10 where it reads the whole text.
unfoldable pub decimal_number : ℕ → Text → Option ℕ
decimal_number value [] = if ltb value size_limit then some value else none
decimal_number value (c ∷ s) =
    let rest = decimal_number (value * 10 + (c - b'0')) s in
    if leb b'0' c && leb c b'9' then rest else none

unfoldable pub parse_content_length_bytes : Text → Option ℕ
unfolding decimal_number
parse_content_length_bytes value = if is_empty value then none else decimal_number 0 value

-- One part of `httpConnectionHeaderHasToken` behind the blanks and commas at its front.
abbrev pub is_token : Text → Text → Bool
is_token token part = text_eq (map ascii_lower (trim_sv part)) token

unfoldable pub has_token : Text → List Text → Bool
has_token token [] = false
has_token token (part ∷ parts) =
    (not (is_empty (trim_sv part)) && is_token token part) || has_token token parts

-- A part that is empty is passed over; the tokens that are asked for are not empty.
unfoldable pub http_connection_header_has_token : Text → Text → Bool
unfolding has_token
http_connection_header_has_token value token = has_token token (split_on b',' value)

-- The test of the byte behind the word.
unfoldable pub ends_expectation : Text → Bool
ends_expectation [] = true
ends_expectation (c ∷ s) = c == b',' || is_space c

unfoldable pub http_expect_is_100_continue : Text → Bool
unfolding ends_expectation
http_expect_is_100_continue value =
    let word = codes "100-continue" in
    let trimmed = trim_sv value in
    starts_with word (map ascii_lower trimmed) && ends_expectation (drop (length word) trimmed)

-- The word behind the last blank, `none` where there is none behind it.
unfoldable pub last_word : List Text → Option Text
last_word [] = none
last_word (word ∷ []) = none
last_word (word ∷ other ∷ []) = if is_empty other then none else some other
last_word (word ∷ other ∷ more ∷ words) = last_word (other ∷ more ∷ words)

-- `httpShouldCloseAfterResponse`
unfoldable pub http_should_close_after_response : Text → Text → Bool
unfolding http_connection_header_has_token last_word split_on
http_should_close_after_response request_line connection =
    if not (is_empty connection) && http_connection_header_has_token connection (codes "close")
    then true
    else if not (is_empty connection)
        && http_connection_header_has_token connection (codes "keep-alive")
    then false
    else elim (last_word (split_on b' ' request_line)) [
      | none ↦ true
      | some version ↦ text_eq (trim_sv version) (codes "HTTP/1.0")
    ]

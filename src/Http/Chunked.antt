-- ===== src/Http/Chunked.antt =====
-- src/data/HTTPRequest.cpp: `findChunkedBodyEnd`. Positions are of the type `size_t`, whose sums wrap.
pub mod Body
use geruest.Prelude.{
  ℕ, zero, suc, ◌+◌, ◌-◌, ◌*◌, ◌%◌, ◌^◌, Bool, true, false, ◌&&◌, ◌||◌, not, [], ◌∷◌, Option, none,
  some, Text, codes, text_eq, is_empty, find_byte, length, take, drop, ltb, leb, ◌==◌,
  if◌then◌else◌, starts_with,
}
use geruest.Http.{trim_sv, find_text_from}

abbrev pub crlf : Text
crlf = 13 ∷ 10 ∷ []

abbrev pub size_limit : ℕ
size_limit = 2 ^ 64

-- The value of a hexadecimal digit of either case.
unfoldable pub hex_value : ℕ → Option ℕ
hex_value c =
    if leb b'0' c && leb c b'9'
    then some (c - b'0')
    else if leb b'a' c && leb c b'f'
    then some (c - 87)
    else if leb b'A' c && leb c b'F'
    then some (c - 55)
    else none

-- `from_chars` with base 16 where it reads the whole text: `none` at another byte, or where the
-- number does not fit into 64 bits.
unfoldable pub hex_number : ℕ → Text → Option ℕ
unfolding hex_value
hex_number value [] = if ltb value size_limit then some value else none
hex_number value (c ∷ s) = elim (hex_value c) [
  | none ↦ none
  | some d ↦ hex_number (value * 16 + d) s
]

-- `sizeLine` without its extension.
unfoldable pub before_semicolon : Text → Text
before_semicolon line = elim (find_byte b';' line) [ none ↦ line | some n ↦ take n line ]

-- The size that a size line gives.
unfoldable pub chunk_size : Text → Option ℕ
unfolding before_semicolon trim_sv hex_number
chunk_size line =
    let digits = trim_sv (before_semicolon line) in
    if is_empty digits then none else hex_number 0 digits

-- What a round of the loop comes to: the function's result, `none` for `npos`, the exception of a
-- `compare` behind the end of the text, or a new position.
pub data Round : Type 0 where
  result : Option ℕ → Round
  throws : Round
  next : ℕ → Round

-- Behind the last chunk, whose size is 0.
unfoldable pub after_last : Text → ℕ → Option ℕ
after_last raw pos =
    if leb (pos + 2) (length raw) && starts_with crlf (drop pos raw)
    then some (pos + 2)
    else elim (find_text_from (13 ∷ 10 ∷ 13 ∷ 10 ∷ []) raw pos) [
      | none ↦ none
      | some n ↦ some (n + 4)
    ]

-- Behind a size line that ends at `pos`. The tests read the text only where it is long enough.
unfoldable pub after_size : Text → ℕ → ℕ → Round
unfolding after_last
after_size raw pos size =
    if size == 0
    then result (after_last raw pos)
    else let data_end = (pos + size) % size_limit in
      if ltb (length raw) ((data_end + 2) % size_limit)
      then result none
      else if ltb (length raw) data_end
      then throws
      else if not (starts_with crlf (drop data_end raw))
      then result none
      else next ((data_end + 2) % size_limit)

unfoldable pub chunk_round : Text → ℕ → Round
chunk_round raw pos = elim (find_text_from crlf raw pos) [
  | none ↦ result none
  | some line_end ↦ elim (chunk_size (take (line_end - pos) (drop pos raw))) [
    | none ↦ result none
    | some size ↦ after_size raw (line_end + 2) size
  ]
]

-- `out_of_rounds` belongs to the model only.
pub data ChunkedEnd : Type 0 where
  ends : Option ℕ → ChunkedEnd
  out_of_range : ChunkedEnd
  out_of_rounds : ChunkedEnd

unfoldable pub find_chunked_body_end : ℕ → Text → ℕ → ChunkedEnd
unfolding chunk_round
find_chunked_body_end zero raw pos = out_of_rounds
find_chunked_body_end (suc n) raw pos = elim (chunk_round raw pos) [
  | result r ↦ ends r
  | throws ↦ out_of_range
  | next pos' ↦ find_chunked_body_end n raw pos'
]

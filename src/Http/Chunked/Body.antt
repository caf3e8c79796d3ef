-- ===== src/Http/Chunked/Body.antt =====
-- src/data/HTTPRequest.cpp: `findChunkedBodyEnd` on encoded bodies.
use geruest.Prelude.{
  length-drop, ℕ, zero, suc, ◌+◌, ◌-◌, ◌%◌, ◌^◌, ◌<◌, ◌≤◌, ◌≡◌, ◌≢◌, refl, sym, ap, ◌∙◌, true, List,
  [], ◌∷◌, ◌++◌, append_assoc, some, Text, All, codes, length, length-append, take, drop,
  take-append, drop-append, drop-drop, starts_with, arith,
}
use geruest.Http.{find_text, find_text_from, trim_sv, trim_start, is_space}
use geruest.Http.Chunked.{
  crlf, size_limit, chunk_size, before_semicolon, hex_number, hex_value, result, next, after_last,
  after_size, chunk_round, ends, out_of_rounds, find_chunked_body_end,
}

-- A chunk on the wire: its size line, with any extension, and its data.
pub record Chunk : Type 0 where
  pub line : Text
  pub bytes : Text

abbrev pub encode_chunk : Chunk → Text
encode_chunk c = c.line ++ (crlf ++ (c.bytes ++ crlf))

-- The body: the chunks, and a last one of size 0 with no trailer.
abbrev pub encode_body : List Chunk → Text → Text
encode_body [] last = last ++ (crlf ++ crlf)
encode_body (c ∷ chunks) last = encode_chunk c ++ encode_body chunks last

-- The line gives the size of the data, and has no carriage return.
pub record IsChunk (c : Chunk) : Type 0 where
  pub sized : chunk_size c.line ≡ some (length c.bytes)
  pub no_cr : All (λ d. d ≢ 13) c.line
  pub filled : 0 < length c.bytes

find_crlf :
    (line rest : Text)
    → All (λ d. d ≢ 13) line
    → find_text crlf (line ++ (crlf ++ rest)) ≡ some (length line)
unfolding find_text
find_crlf [] rest h = refl
find_crlf (c ∷ line) rest (d, h) = ground (arith, find_crlf line rest h)

find_crlf_from :
    (raw line rest : Text) (pos : ℕ)
    → drop pos raw ≡ line ++ (crlf ++ rest)
    → pos ≤ length raw
    → All (λ d. d ≢ 13) line
    → find_text_from crlf raw pos ≡ some (pos + length line)
unfolding find_text_from
find_crlf_from raw line rest pos e h k = ground (arith, e, find_crlf line rest k)

-- The text behind a piece at the front of what stands at a position.
drop_behind :
    (raw piece rest : Text) (pos : ℕ)
    → drop pos raw ≡ piece ++ rest
    → drop (pos + length piece) raw ≡ rest
drop_behind raw piece rest pos e =
    sym (drop-drop (length piece) pos raw)
    ∙ ap (drop (length piece)) e
    ∙ drop-append piece rest (length piece) refl

length-behind : (raw : Text) (pos : ℕ) → pos ≤ length raw → length raw ≡ pos + length (drop pos raw)
length-behind raw pos h = omega (arith, length-drop pos raw)

take_line :
    (raw line rest : Text) (pos : ℕ)
    → drop pos raw ≡ line ++ rest
    → take (pos + length line - pos) (drop pos raw) ≡ line
take_line raw line rest pos e =
    let n : pos + length line - pos ≡ length line = omega arith in
    rw (n, e) (take-append line rest (length line) refl)

-- A round at a size line ends behind it, with what the size line says.
line_round :
    (raw line rest : Text) (pos size : ℕ)
    → drop pos raw ≡ line ++ (crlf ++ rest)
    → pos ≤ length raw
    → All (λ d. d ≢ 13) line
    → chunk_size line ≡ some size
    → chunk_round raw pos ≡ after_size raw (pos + length line + 2) size
unfolding chunk_round
line_round raw line rest pos size e h k sized =
    rw
      (
        find_crlf_from raw line rest pos e h k,
        chunk_round,
        take_line raw line (crlf ++ rest) pos e,
        sized,
      )
      refl

wrapping_size : chunk_size (codes "ffffffffffffffec") ≡ some (2 ^ 64 - 20)
unfolding chunk_size before_semicolon hex_number hex_value trim_sv trim_start is_space
wrapping_size = refl

module _ (raw : Text) (small : length raw + 2 < size_limit) where
  -- Data of a size that is not 0, and the line end behind it.
  after_size_lem :
      (pos size : ℕ) (rest : Text)
      → 0 < size
      → pos + size + 2 ≤ length raw
      → drop (pos + size) raw ≡ crlf ++ rest
      → after_size raw pos size ≡ next (pos + size + 2)
  unfolding after_size
  after_size_lem pos size rest filled fits e =
      let at_end : (pos + size) % size_limit ≡ pos + size = omega arith in
      let behind : (pos + size + 2) % size_limit ≡ pos + size + 2 = omega arith in
      rw (at_end, behind, e) (ground arith)

  -- A round at a chunk goes on behind the chunk.
  chunk_next :
      (c : Chunk) (rest : Text) (pos : ℕ)
      → drop pos raw ≡ encode_chunk c ++ rest
      → pos ≤ length raw
      → IsChunk c
      → (chunk_round raw pos ≡ next (pos + length (encode_chunk c)))
        × (drop (pos + length (encode_chunk c)) raw ≡ rest)
        × (pos + length (encode_chunk c) ≤ length raw)
  chunk_next c rest pos e h k =
      let body = c.bytes ++ crlf in
      let e' : drop pos raw ≡ c.line ++ (crlf ++ (body ++ rest)) =
        e ∙ append_assoc c.line (crlf ++ body) rest in
      let at_data : drop (pos + length c.line + 2) raw ≡ c.bytes ++ (crlf ++ rest) =
        drop_behind raw crlf (body ++ rest) (pos + length c.line)
          (drop_behind raw c.line (crlf ++ (body ++ rest)) pos e')
        ∙ append_assoc c.bytes crlf rest in
      let at_end : drop (pos + length c.line + 2 + length c.bytes) raw ≡ crlf ++ rest =
        drop_behind raw c.bytes (crlf ++ rest) (pos + length c.line + 2) at_data in
      let size : length (encode_chunk c) ≡ length c.line + 2 + length c.bytes + 2 =
        omega (arith, length-append c.line (crlf ++ body), length-append c.bytes crlf) in
      let whole : length raw ≡ pos + length (encode_chunk c) + length rest =
        omega (arith, length-behind raw pos h, ap length e, length-append (encode_chunk c) rest) in
      let there : pos + length c.line + 2 + length c.bytes + 2 ≡ pos + length (encode_chunk c) =
        omega (arith, size) in
      (
        line_round raw c.line (body ++ rest) pos (length c.bytes) e' h k.no_cr k.sized
            ∙ after_size_lem (pos + length c.line + 2) (length c.bytes) rest k.filled
                (omega (arith, whole, size)) at_end
            ∙ ap next there,
        drop_behind raw (encode_chunk c) rest pos e,
        omega (arith, whole),
      )

  -- A round at the last chunk ends the search behind it.
  last_round :
      (last rest : Text) (pos : ℕ)
      → drop pos raw ≡ (last ++ (crlf ++ crlf)) ++ rest
      → pos ≤ length raw
      → All (λ d. d ≢ 13) last
      → chunk_size last ≡ some 0
      → chunk_round raw pos ≡ result (some (pos + length (last ++ (crlf ++ crlf))))
  unfolding after_size after_last
  last_round last rest pos e h k sized =
      let e' : drop pos raw ≡ last ++ (crlf ++ (crlf ++ rest)) =
        e ∙ append_assoc last (crlf ++ crlf) rest in
      let behind : drop (pos + length last + 2) raw ≡ crlf ++ rest =
        drop_behind raw crlf (crlf ++ rest) (pos + length last)
          (drop_behind raw last (crlf ++ (crlf ++ rest)) pos e') in
      let size : length (last ++ (crlf ++ crlf)) ≡ length last + 4 =
        length-append last (crlf ++ crlf) in
      let whole : length raw ≡ pos + length (last ++ (crlf ++ crlf)) + length rest = omega (
        arith,
        length-behind raw pos h,
        ap length e,
        length-append (last ++ (crlf ++ crlf)) rest,
      ) in
      line_round raw last (crlf ++ rest) pos 0 e' h k sized
      ∙ rw behind (ground (arith, whole, size))

  -- The search finds the end of a chunked body exactly, whatever the size lines look like beside
  -- the size, whatever the chunks hold and whatever stands behind the body. One round is needed
  -- for each chunk, and one more. No size line has a carriage return. The whole text is shorter than 2 ^ 64 - 2 bytes.
  pub find_chunked_body_end-encode_body :
      (chunks : List Chunk) (last rest : Text) (pos n : ℕ)
      → All IsChunk chunks
      → All (λ d. d ≢ 13) last
      → chunk_size last ≡ some 0
      → drop pos raw ≡ encode_body chunks last ++ rest
      → pos ≤ length raw
      → length chunks < n
      → find_chunked_body_end n raw pos ≡ ends (some (pos + length (encode_body chunks last)))
  unfolding find_chunked_body_end
  find_chunked_body_end-encode_body chunks last rest pos zero g k sized e h enough =
      absurd (omega arith)
  find_chunked_body_end-encode_body [] last rest pos (suc n) g k sized e h enough =
      rw (last_round last rest pos e h k sized, find_chunked_body_end) refl
  find_chunked_body_end-encode_body (c ∷ chunks) last rest pos (suc n) (good, g) k sized e h
        enough =
      let body = encode_body chunks last in
      let (step, behind, inside) =
        chunk_next c (body ++ rest) pos (e ∙ append_assoc (encode_chunk c) body rest) h good in
      let size : pos + length (encode_chunk c) + length body
          ≡ pos + length (encode_chunk c ++ body) =
        omega (arith, length-append (encode_chunk c) body) in
      rw (step, find_chunked_body_end)
        (find_chunked_body_end-encode_body chunks last rest (pos + length (encode_chunk c)) n g k
            sized behind inside (omega arith)
          ∙ ap (λ m. ends (some m)) size)

-- A chunk of 2 ^ 64 - 20 bytes, with sixteen digits: the sum with its position wraps round.
abbrev pub wrapping_line : Text
wrapping_line = codes "ffffffffffffffec"

-- A body that begins with the line `ffffffffffffffec`, behind a line end, is searched for its end
-- for ever: each round comes back to the place where it began.
pub find_chunked_body_end-loops :
    (n : ℕ) (raw rest : Text) (pos : ℕ)
    → 2 ≤ pos
    → length raw < size_limit
    → starts_with crlf (drop (pos - 2) raw) ≡ true
    → drop pos raw ≡ wrapping_line ++ (crlf ++ rest)
    → pos ≤ length raw
    → find_chunked_body_end n raw pos ≡ out_of_rounds
unfolding find_chunked_body_end
find_chunked_body_end-loops zero raw rest pos h small before e inside = refl
find_chunked_body_end-loops (suc n) raw rest pos h small before e inside =
    rw
      (
        line_round raw wrapping_line rest pos (2 ^ 64 - 20) e inside (omega arith) wrapping_size
            ∙ back,
        find_chunked_body_end,
      )
      (find_chunked_body_end-loops n raw rest pos h small before e inside)
  where
    back : after_size raw (pos + 16 + 2) (2 ^ 64 - 20) ≡ next pos
    back =
        let target : (pos + 16 + 2 + (2 ^ 64 - 20)) % size_limit ≡ pos - 2 = omega arith in
        let behind : (pos - 2 + 2) % size_limit ≡ pos = omega arith in
        unfold after_size in rw (target, behind) (ground (arith, before))

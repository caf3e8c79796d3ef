-- ===== src/Http/Framing.antt =====
-- src/handler/HttpFraming.cpp: one request after another from the bytes of a connection. The socket
-- is the list of what its reads will return; an empty read, or the end of the list, is a read that
-- fails. What the writer makes of a send, and the bytes of the response 400, are arguments.
pub mod Bytes
pub mod Complete
use geruest.Prelude.{
  ℕ, ◌%◌, ◌^◌, zero, suc, ◌+◌, ◌-◌, ◌*◌, Bool, true, false, ◌&&◌, ◌||◌, not, List, [], ◌∷◌, ◌++◌,
  Option, none, some, Text, codes, is_empty, length, take, drop, ltb, leb, ◌==◌, if◌then◌else◌,
}
use geruest.Http.Chunked.{ChunkedEnd, ends, out_of_range, out_of_rounds, find_chunked_body_end}
use geruest.Http.Headers.{
  HttpHeaderSplit, split_http_headers, HeaderPreflight, parse_header_preflight,
  parse_content_length_bytes, http_connection_header_has_token, http_expect_is_100_continue,
}

abbrev pub max_http_header_bytes : ℕ
max_http_header_bytes = 65536

abbrev pub max_http_body_bytes : ℕ
max_http_body_bytes = 16 * 1024 * 1024

-- `pendingRequestData_`, `messageCount_`, the socket, and what was sent on it.
pub record HttpFraming : Type 0 where
  pub pending_request_data : Text
  pub message_count : ℕ
  pub reads : List Text
  pub sent : List Text

-- The outcomes, with the message of a request. In the last two the call has no outcome: a
-- `compare` threw, or the search for the end of a chunked body took more rounds than were given.
pub data FramingOutcome : Type 0 where
  request : Text → FramingOutcome
  stop abort : FramingOutcome
  exception no_return : FramingOutcome

-- What a loop of reads comes to: the bytes, and the reads that are left.
pub data Collected : Type 0 where
  collected : Text → List Text → Collected
  failed : List Text → Collected

-- The loop that reads until the header section is there.
unfoldable pub read_headers : Text → List Text → Collected
read_headers raw [] = elim (split_http_headers raw) [
  | some split ↦ collected raw []
  | none ↦ failed []
]
read_headers raw (bytes ∷ reads) = elim (split_http_headers raw) [
  | some split ↦ collected raw (bytes ∷ reads)
  | none ↦
      let rest = read_headers (raw ++ bytes) reads in
      if leb max_http_header_bytes (length raw)
      then failed (bytes ∷ reads)
      else if is_empty bytes
      then failed reads
      else rest
]

-- The loop that reads until `need_total` bytes are there.
unfoldable pub read_body : ℕ → Text → List Text → Collected
read_body need_total raw [] = if ltb (length raw) need_total then failed [] else collected raw []
read_body need_total raw (bytes ∷ reads) =
    let rest = read_body need_total (raw ++ bytes) reads in
    if not (ltb (length raw) need_total)
    then collected raw (bytes ∷ reads)
    else if is_empty bytes
    then failed reads
    else rest

-- `discardFromSocketAsync`, by the sum of its reads.
unfoldable pub discard_from_socket : ℕ → List Text → List Text
discard_from_socket count [] = []
discard_from_socket count (bytes ∷ reads) =
    let rest = discard_from_socket (count - length bytes) reads in
    if count == 0
    then bytes ∷ reads
    else if is_empty bytes
    then reads
    else if ltb count (length bytes)
    then drop count bytes ∷ reads
    else rest

-- What the loop for a chunked body comes to: the bytes with the end of the message, or none.
pub data ChunkedRead : Type 0 where
  complete : Text → ℕ → List Text → ChunkedRead
  read_failed : List Text → ChunkedRead
  too_large : List Text → ChunkedRead
  no_end : List Text → ChunkedRead
  threw : List Text → ChunkedRead

-- The loop that reads until the end of the chunked body is there, with `rounds` for each search.
unfoldable pub read_chunked : ℕ → ℕ → Text → List Text → ChunkedRead
read_chunked rounds header_end raw [] = elim (find_chunked_body_end rounds raw header_end) [
  | ends (some chunk_end) ↦ complete raw chunk_end []
  | ends none ↦ read_failed []
  | out_of_range ↦ threw []
  | out_of_rounds ↦ no_end []
]
read_chunked rounds header_end raw (bytes ∷ reads) =
    elim (find_chunked_body_end rounds raw header_end) [
      | ends (some chunk_end) ↦ complete raw chunk_end (bytes ∷ reads)
      | ends none ↦
          let rest = read_chunked rounds header_end (raw ++ bytes) reads in
          if is_empty bytes
          then read_failed reads
          else if ltb (max_http_body_bytes + header_end) (length (raw ++ bytes))
          then too_large reads
          else rest
      | out_of_range ↦ threw (bytes ∷ reads)
      | out_of_rounds ↦ no_end (bytes ∷ reads)
    ]

abbrev pub continue_line : Text
continue_line = codes "HTTP/1.1 100 Continue\r\n\r\n"

abbrev pub Framed : Type 0
Framed = FramingOutcome × HttpFraming

-- The last lines: the message is cut off, and the rest is kept for the next call.
unfoldable pub finish_message : Text → ℕ → List Text → HttpFraming → Framed
finish_message raw need_total reads framing = (
  request (take need_total raw),
  record framing { pending_request_data = drop need_total raw; reads = reads },
)

unfoldable pub abort_at : List Text → HttpFraming → Framed
abort_at reads framing = (abort, record framing { reads = reads })

-- The message from the body on, when the body's length is known.
unfoldable pub plain_body : ℕ → Text → HttpFraming → Framed
unfolding finish_message abort_at
plain_body need_total raw framing = elim (read_body need_total raw framing.reads) [
  | collected raw' reads ↦ finish_message raw' need_total reads framing
  | failed reads ↦ abort_at reads framing
]

module _ (send_ok : Text → Bool) (bad_request : Text) where
  unfoldable pub send_bad_request : HttpFraming → HttpFraming
  send_bad_request framing = record framing { sent = framing.sent ++ bad_request ∷ [] }

  -- The message from the body on, when the body is chunked.
  unfoldable pub chunked_body : ℕ → ℕ → Text → HttpFraming → Framed
  unfolding finish_message abort_at send_bad_request
  chunked_body rounds header_end raw framing =
      elim (read_chunked rounds header_end raw framing.reads) [
        | complete raw' need_total reads ↦ finish_message raw' need_total reads framing
        | read_failed reads ↦ abort_at reads framing
        | too_large reads ↦ abort_at reads (send_bad_request framing)
        | no_end reads ↦ (no_return, record framing { reads = reads })
        | threw reads ↦ (exception, record framing { reads = reads })
      ]

  -- The body by the two headers, where the content length is a number or there is none.
  unfoldable pub read_by_length : ℕ → ℕ → Text → Option ℕ → Bool → HttpFraming → Framed
  unfolding plain_body chunked_body send_bad_request abort_at
  read_by_length rounds header_end raw none has_chunked framing =
      if has_chunked
      then chunked_body rounds header_end raw framing
      else plain_body header_end raw framing
  read_by_length rounds header_end raw (some body_expected) has_chunked framing =
      if ltb max_http_body_bytes body_expected
      then abort_at (discard_from_socket (body_expected - (length raw - header_end)) framing.reads)
          (send_bad_request framing)
      else if has_chunked
      then chunked_body rounds header_end raw framing
      else plain_body (header_end + body_expected) raw framing

  unfoldable pub read_by_headers : ℕ → ℕ → Text → HeaderPreflight → HttpFraming → Framed
  unfolding read_by_length
  read_by_headers rounds header_end raw preflight framing =
      let has_chunked =
        not (is_empty preflight.transfer_encoding)
        && http_connection_header_has_token preflight.transfer_encoding (codes "chunked") in
      if is_empty preflight.content_length
      then read_by_length rounds header_end raw none has_chunked framing
      else elim (parse_content_length_bytes preflight.content_length) [
        | none ↦ abort_at framing.reads (send_bad_request framing)
        | some body_expected ↦
            read_by_length rounds header_end raw (some body_expected) has_chunked framing
      ]

  -- The message once the header section is there.
  unfoldable pub read_message : ℕ → ℕ → Text → HttpFraming → Framed
  unfolding read_by_headers
  read_message rounds header_end raw framing =
      let preflight = parse_header_preflight (take header_end raw) in
      if not (is_empty preflight.expect) && http_expect_is_100_continue preflight.expect
      then (let sent = record framing { sent = framing.sent ++ continue_line ∷ [] } in
          if send_ok continue_line
          then read_by_headers rounds header_end raw preflight sent
          else abort_at framing.reads sent)
      else read_by_headers rounds header_end raw preflight framing

  -- The header section, from the bytes that are there.
  unfoldable pub frame_from : ℕ → Text → HttpFraming → Framed
  unfolding read_message
  frame_from rounds raw framing = elim (read_headers raw framing.reads) [
    | failed reads ↦ abort_at reads framing
    | collected raw' reads ↦ elim (split_http_headers raw') [
      | none ↦ abort_at reads framing
      | some split ↦
          read_message rounds split.header_section_end raw' (record framing { reads = reads })
    ]
  ]

  -- The first read, where nothing is pending.
  unfoldable pub first_read : ℕ → List Text → HttpFraming → Framed
  unfolding frame_from
  first_read rounds [] framing = (stop, framing)
  first_read rounds (bytes ∷ reads) framing =
      if is_empty bytes
      then (stop, record framing { reads = reads })
      else frame_from rounds bytes (record framing { reads = reads })

  -- `readNextRequestAsync`, with `rounds` for each search for the end of a chunked body.
  unfoldable pub read_next_request : ℕ → ℕ → HttpFraming → Framed
  unfolding first_read
  read_next_request rounds max_requests framing =
      if not (max_requests == 0) && leb max_requests framing.message_count
      then (stop, framing)
      else let raw = framing.pending_request_data in
        let counted = record framing {
          pending_request_data = [];
          message_count = (framing.message_count + 1) % 2 ^ 32;
        } in
        if is_empty raw
        then first_read rounds framing.reads counted
        else frame_from rounds raw counted

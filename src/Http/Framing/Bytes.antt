-- ===== src/Http/Framing/Bytes.antt =====
-- src/handler/HttpFraming.cpp: the bytes of the connection and those of the messages.
use mathlib.Core.Path.{subst}
use geruest.Prelude.{
  ℕ, ◌%◌, ◌^◌, ◌+◌, ◌-◌, ◌≡◌, refl, sym, ap, ◌∙◌, Bool, ◌&&◌, ◌⊎◌, not, List, [], ◌∷◌, ◌++◌,
  append_assoc, Option, none, some, Text, is_empty, length, take, drop, take-append-drop, ltb, leb,
  ◌==◌, if◌then◌else◌, if_elim, Option-cases, inl, inr,
}
use geruest.Http.Chunked.{ChunkedEnd, ends, out_of_range, out_of_rounds, find_chunked_body_end}
use geruest.Http.Headers.{
  split_http_headers, HeaderPreflight, parse_header_preflight, parse_content_length_bytes,
  http_expect_is_100_continue,
}
use geruest.Http.Framing.{
  HttpFraming, max_http_header_bytes, max_http_body_bytes, request, stop, abort, exception,
  no_return, Framed, Collected, collected, failed, read_headers, read_body, ChunkedRead, complete,
  read_failed, too_large, no_end, threw, read_chunked, finish_message, abort_at, plain_body,
  send_bad_request, chunked_body, read_by_length, read_by_headers, read_message, frame_from,
  first_read, discard_from_socket, read_next_request, continue_line,
}

-- The bytes of the reads, one after another.
abbrev pub joined : List Text → Text
joined [] = []
joined (bytes ∷ reads) = bytes ++ joined reads

-- The bytes of the connection that no message has taken yet.
abbrev pub unread : HttpFraming → Text
unread framing = framing.pending_request_data ++ joined framing.reads

-- A message that is returned and the bytes that are left are the bytes `all`.
pub Takes : Text → Framed → Type 0
Takes all (request message, framing) = message ++ unread framing ≡ all
Takes all (stop, framing) = Unit
Takes all (abort, framing) = Unit
Takes all (exception, framing) = Unit
Takes all (no_return, framing) = Unit

Keeps : Text → Collected → Type 0
Keeps all (collected raw reads) = raw ++ joined reads ≡ all
Keeps all (failed reads) = Unit

-- Bytes that were read stand in front of the reads that are left.
moved :
    (r : Collected) (raw bytes rest : Text)
    → Keeps ((raw ++ bytes) ++ rest) r
    → Keeps (raw ++ (bytes ++ rest)) r
moved r raw bytes rest = subst (λ all. Keeps all r) (append_assoc raw bytes rest)

read_headers-Keeps :
    (raw : Text) (reads : List Text) → Keeps (raw ++ joined reads) (read_headers raw reads)
unfolding read_headers
read_headers-Keeps raw [] = elim (Option-cases (split_http_headers raw)) [
  | inl e ↦ rw (read_headers, e) (unfold Keeps in tt)
  | inr (split, e) ↦ rw (read_headers, e) (unfold Keeps in refl)
]
read_headers-Keeps raw (bytes ∷ reads) = elim (Option-cases (split_http_headers raw)) [
  | inl e ↦
      let rest =
        moved (read_headers (raw ++ bytes) reads) raw bytes (joined reads)
          (read_headers-Keeps (raw ++ bytes) reads) in
      rw (read_headers, e)
        (if_elim (Keeps (raw ++ joined (bytes ∷ reads))) (leb max_http_header_bytes (length raw)) _
          _ (λ _. unfold Keeps in tt)
          (λ _.
            if_elim (Keeps (raw ++ joined (bytes ∷ reads))) (is_empty bytes) _ _
              (λ _. unfold Keeps in tt) (λ _. rest)))
  | inr (split, e) ↦ rw (read_headers, e) (unfold Keeps in refl)
]

read_body-Keeps :
    (need_total : ℕ) (raw : Text) (reads : List Text)
    → Keeps (raw ++ joined reads) (read_body need_total raw reads)
unfolding read_body
read_body-Keeps need_total raw [] =
    if_elim (Keeps (raw ++ [])) (ltb (length raw) need_total) _ _ (λ _. unfold Keeps in tt)
      (λ _. unfold Keeps in refl)
read_body-Keeps need_total raw (bytes ∷ reads) =
    let rest =
      moved (read_body need_total (raw ++ bytes) reads) raw bytes (joined reads)
        (read_body-Keeps need_total (raw ++ bytes) reads) in
    let Target = Keeps (raw ++ joined (bytes ∷ reads)) in
    if_elim Target (not (ltb (length raw) need_total)) _ _ (λ _. unfold Keeps in refl)
      λ _. if_elim Target (is_empty bytes) _ _ (λ _. unfold Keeps in tt) (λ _. rest)

KeepsChunked : Text → ChunkedRead → Type 0
KeepsChunked all (complete raw need_total reads) = raw ++ joined reads ≡ all
KeepsChunked all (read_failed reads) = Unit
KeepsChunked all (too_large reads) = Unit
KeepsChunked all (no_end reads) = Unit
KeepsChunked all (threw reads) = Unit

ChunkedEnd-cases :
    (e : ChunkedEnd)
    → ((n : ℕ) × (e ≡ ends (some n)))
      ⊎ ((e ≡ ends none) ⊎ ((e ≡ out_of_range) ⊎ (e ≡ out_of_rounds)))
ChunkedEnd-cases (ends none) = inr (inl refl)
ChunkedEnd-cases (ends (some n)) = inl (n, refl)
ChunkedEnd-cases out_of_range = inr (inr (inl refl))
ChunkedEnd-cases out_of_rounds = inr (inr (inr refl))

read_chunked-Keeps :
    (rounds header_end : ℕ) (raw : Text) (reads : List Text)
    → KeepsChunked (raw ++ joined reads) (read_chunked rounds header_end raw reads)
unfolding read_chunked
read_chunked-Keeps rounds header_end raw [] =
    elim (ChunkedEnd-cases (find_chunked_body_end rounds raw header_end)) [
      | inl (n, e) ↦ rw (read_chunked, e) (unfold KeepsChunked in refl)
      | inr (inl e) ↦ rw (read_chunked, e) (unfold KeepsChunked in tt)
      | inr (inr (inl e)) ↦ rw (read_chunked, e) (unfold KeepsChunked in tt)
      | inr (inr (inr e)) ↦ rw (read_chunked, e) (unfold KeepsChunked in tt)
    ]
read_chunked-Keeps rounds header_end raw (bytes ∷ reads) =
    let all = raw ++ joined (bytes ∷ reads) in
    let rest =
      subst (λ t. KeepsChunked t (read_chunked rounds header_end (raw ++ bytes) reads))
        (append_assoc raw bytes (joined reads))
        (read_chunked-Keeps rounds header_end (raw ++ bytes) reads) in
    elim (ChunkedEnd-cases (find_chunked_body_end rounds raw header_end)) [
      | inl (n, e) ↦ rw (read_chunked, e) (unfold KeepsChunked in refl)
      | inr (inl e) ↦
          rw (read_chunked, e)
            (if_elim (KeepsChunked all) (is_empty bytes) _ _ (λ _. unfold KeepsChunked in tt)
              (λ _.
                if_elim (KeepsChunked all)
                  (ltb (max_http_body_bytes + header_end) (length (raw ++ bytes))) _ _
                  (λ _. unfold KeepsChunked in tt) (λ _. rest)))
      | inr (inr (inl e)) ↦ rw (read_chunked, e) (unfold KeepsChunked in tt)
      | inr (inr (inr e)) ↦ rw (read_chunked, e) (unfold KeepsChunked in tt)
    ]

finish_message-Takes :
    {all : Text} (raw : Text) (need_total : ℕ) (reads : List Text) (framing : HttpFraming)
    → raw ++ joined reads ≡ all
    → Takes all (finish_message raw need_total reads framing)
unfolding finish_message Takes
finish_message-Takes raw need_total reads framing k =
    sym (append_assoc (take need_total raw) (drop need_total raw) (joined reads))
    ∙ ap (λ t. t ++ joined reads) (take-append-drop need_total raw)
    ∙ k

abort_at-Takes :
    (all : Text) (reads : List Text) (framing : HttpFraming) → Takes all (abort_at reads framing)
unfolding abort_at Takes
abort_at-Takes all reads framing = tt

stop-Takes : (all : Text) (framing : HttpFraming) → Takes all (stop, framing)
unfolding Takes
stop-Takes all framing = tt

plain_body-Takes :
    (need_total : ℕ) (raw : Text) (framing : HttpFraming)
    → Takes (raw ++ joined framing.reads) (plain_body need_total raw framing)
unfolding plain_body
plain_body-Takes need_total raw framing =
    split (read_body need_total raw framing.reads) (read_body-Keeps need_total raw framing.reads)
  where
    split :
        (c : Collected)
        → Keeps (raw ++ joined framing.reads) c
        → Takes (raw ++ joined framing.reads) (elim c as (λ _. Framed) [
          | collected raw' reads ↦ finish_message raw' need_total reads framing
          | failed reads ↦ abort_at reads framing
        ])
    split (collected raw' reads) k =
        finish_message-Takes raw' need_total reads framing (unfold Keeps in k)
    split (failed reads) k = abort_at-Takes (raw ++ joined framing.reads) reads framing

module _ (send_ok : Text → Bool) (bad_request : Text) where
  chunked_body-Takes :
      (rounds header_end : ℕ) (raw : Text) (framing : HttpFraming)
      → Takes
          (raw ++ joined framing.reads)
          (chunked_body send_ok bad_request rounds header_end raw framing)
  unfolding chunked_body
  chunked_body-Takes rounds header_end raw framing =
      split (read_chunked rounds header_end raw framing.reads)
        (read_chunked-Keeps rounds header_end raw framing.reads)
    where
      split :
          (c : ChunkedRead)
          → KeepsChunked (raw ++ joined framing.reads) c
          → Takes (raw ++ joined framing.reads) (elim c as (λ _. Framed) [
            | complete raw' need_total reads ↦ finish_message raw' need_total reads framing
            | read_failed reads ↦ abort_at reads framing
            | too_large reads ↦ abort_at reads (send_bad_request send_ok bad_request framing)
            | no_end reads ↦ (no_return, record framing { reads = reads })
            | threw reads ↦ (exception, record framing { reads = reads })
          ])
      split (complete raw' need_total reads) k =
          finish_message-Takes raw' need_total reads framing (unfold KeepsChunked in k)
      split (read_failed reads) k = abort_at-Takes (raw ++ joined framing.reads) reads framing
      split (too_large reads) k =
          abort_at-Takes (raw ++ joined framing.reads) reads
            (send_bad_request send_ok bad_request framing)
      split (no_end reads) k = unfold Takes in tt
      split (threw reads) k = unfold Takes in tt

  read_by_length-Takes :
      (rounds header_end : ℕ) (raw : Text) (expected : Option ℕ) (has_chunked : Bool)
      (framing : HttpFraming)
      → Takes
          (raw ++ joined framing.reads)
          (read_by_length send_ok bad_request rounds header_end raw expected has_chunked framing)
  unfolding read_by_length
  read_by_length-Takes rounds header_end raw none has_chunked framing =
      if_elim (Takes (raw ++ joined framing.reads)) has_chunked _ _
        (λ _. chunked_body-Takes rounds header_end raw framing)
        (λ _. plain_body-Takes header_end raw framing)
  read_by_length-Takes rounds header_end raw (some body_expected) has_chunked framing =
      let Target = Takes (raw ++ joined framing.reads) in
      if_elim Target (ltb max_http_body_bytes body_expected) _ _
        (λ _.
          abort_at-Takes _
            (discard_from_socket (body_expected - (length raw - header_end)) framing.reads)
            (send_bad_request send_ok bad_request framing))
        λ _.
          if_elim Target has_chunked _ _ (λ _. chunked_body-Takes rounds header_end raw framing)
            (λ _. plain_body-Takes (header_end + body_expected) raw framing)

  read_by_headers-Takes :
      (rounds header_end : ℕ) (raw : Text) (preflight : HeaderPreflight) (framing : HttpFraming)
      → Takes
          (raw ++ joined framing.reads)
          (read_by_headers send_ok bad_request rounds header_end raw preflight framing)
  unfolding read_by_headers
  read_by_headers-Takes rounds header_end raw preflight framing =
      let Target = Takes (raw ++ joined framing.reads) in
      if_elim Target (is_empty preflight.content_length) _ _
        (λ _. read_by_length-Takes rounds header_end raw none _ framing)
        λ _. elim (Option-cases (parse_content_length_bytes preflight.content_length)) [
          | inl e ↦
              rw (e) (abort_at-Takes _ framing.reads (send_bad_request send_ok bad_request framing))
          | inr (n, e) ↦ rw (e) (read_by_length-Takes rounds header_end raw (some n) _ framing)
        ]

  read_message-Takes :
      (rounds header_end : ℕ) (raw : Text) (framing : HttpFraming)
      → Takes
          (raw ++ joined framing.reads)
          (read_message send_ok bad_request rounds header_end raw framing)
  unfolding read_message
  read_message-Takes rounds header_end raw framing =
      let Target = Takes (raw ++ joined framing.reads) in
      let preflight = parse_header_preflight (take header_end raw) in
      let sent = record framing { sent = framing.sent ++ continue_line ∷ [] } in
      let plain = read_by_headers-Takes rounds header_end raw preflight framing in
      let continued = read_by_headers-Takes rounds header_end raw preflight sent in
      let aborted = abort_at-Takes (raw ++ joined framing.reads) framing.reads sent in
      if_elim Target
        (not (is_empty preflight.expect) && http_expect_is_100_continue preflight.expect)
        (if send_ok continue_line
          then read_by_headers send_ok bad_request rounds header_end raw preflight sent
          else abort_at framing.reads sent)
        (read_by_headers send_ok bad_request rounds header_end raw preflight framing)
        (λ _. if_elim Target (send_ok continue_line) _ _ (λ _. continued) (λ _. aborted))
        (λ _. plain)

  frame_from-Takes :
      (rounds : ℕ) (raw : Text) (framing : HttpFraming)
      → Takes (raw ++ joined framing.reads) (frame_from send_ok bad_request rounds raw framing)
  unfolding frame_from Keeps
  frame_from-Takes rounds raw framing =
      split (read_headers raw framing.reads) (read_headers-Keeps raw framing.reads)
    where
      split :
          (c : Collected)
          → Keeps (raw ++ joined framing.reads) c
          → Takes (raw ++ joined framing.reads) (elim c as (λ _. Framed) [
            | failed reads ↦ abort_at reads framing
            | collected raw' reads ↦ elim (split_http_headers raw') [
              | none ↦ abort_at reads framing
              | some ends_at ↦
                  read_message send_ok bad_request rounds ends_at.header_section_end raw'
                    (record framing { reads = reads })
            ]
          ])
      split (failed reads) k = abort_at-Takes (raw ++ joined framing.reads) reads framing
      split (collected raw' reads) k = elim (Option-cases (split_http_headers raw')) [
        | inl e ↦ rw (e) (abort_at-Takes _ reads framing)
        | inr (ends_at, e) ↦ rw (e) (
            subst
              (λ all. Takes all (
                read_message send_ok bad_request rounds ends_at.header_section_end raw'
                  (record framing { reads = reads })))
              k
              (read_message-Takes rounds ends_at.header_section_end raw'
                (record framing { reads = reads })))
      ]

  first_read-Takes :
      (rounds : ℕ) (reads : List Text) (framing : HttpFraming)
      → Takes (joined reads) (first_read send_ok bad_request rounds reads framing)
  unfolding first_read
  first_read-Takes rounds [] framing = unfold Takes in tt
  first_read-Takes rounds (bytes ∷ reads) framing =
      if_elim (Takes (joined (bytes ∷ reads))) (is_empty bytes) _ _ (λ _. unfold Takes in tt)
        (λ _. frame_from-Takes rounds bytes (record framing { reads = reads }))

  -- Whatever the reads return and whatever becomes of the sends: when a call returns a request, its
  -- message and the bytes that no message has taken yet are, in this order, the bytes that no message
  -- had taken before the call. So no byte of the connection is lost, repeated or moved, and the
  -- next call starts where the message ends.
  pub read_next_request-Takes :
      (rounds max_requests : ℕ) (framing : HttpFraming)
      → Takes (unread framing) (read_next_request send_ok bad_request rounds max_requests framing)
  unfolding read_next_request
  read_next_request-Takes rounds max_requests framing =
      if_elim (Takes (unread framing))
        (not (max_requests == 0) && leb max_requests framing.message_count) (stop, framing)
        (if is_empty framing.pending_request_data
          then first_read send_ok bad_request rounds framing.reads counted
          else frame_from send_ok bad_request rounds framing.pending_request_data counted)
        (λ _. stop-Takes (unread framing) framing) (λ _. from framing.pending_request_data)
    where
      counted : HttpFraming
      counted = record framing {
        pending_request_data = [];
        message_count = (framing.message_count + 1) % 2 ^ 32;
      }

      from :
          (raw : Text)
          → Takes (raw ++ joined framing.reads) (
              if is_empty raw
              then first_read send_ok bad_request rounds framing.reads counted
              else frame_from send_ok bad_request rounds raw counted)
      from [] = first_read-Takes rounds framing.reads counted
      from (byte ∷ raw) = frame_from-Takes rounds (byte ∷ raw) counted

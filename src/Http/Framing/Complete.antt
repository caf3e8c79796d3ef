-- ===== src/Http/Framing/Complete.antt =====
-- src/handler/HttpFraming.cpp: `readNextRequestAsync` where the message is there.
use geruest.Prelude.{
  ℕ, ◌%◌, ◌^◌, zero, suc, ◌+◌, ◌≤◌, ◌≡◌, refl, sym, ap, ◌∙◌, Bool, true, false, List, [], ◌∷◌, ◌++◌,
  append-nil, append_assoc, some, Text, All, is_empty, length, take, ltb, Bool-cases, inl, inr,
  arith,
}
use geruest.Http.{find_text}
use geruest.Http.Headers.{
  HttpHeaderSplit, split_at_first, split_http_headers, HeaderPreflight, parse_header_preflight,
  parse_content_length_bytes,
}
use geruest.Http.Framing.{
  HttpFraming, max_http_body_bytes, request, collected, read_headers, read_body, finish_message,
  plain_body, read_by_length, read_by_headers, read_message, frame_from, read_next_request,
}
use geruest.Http.Framing.Bytes.{joined, unread}

-- No read fails.
abbrev pub Arrive : List Text → Type 0
Arrive reads = All (λ bytes. is_empty bytes ≡ false) reads

read_headers-split :
    (raw : Text) (reads : List Text) (split : HttpHeaderSplit)
    → split_http_headers raw ≡ some split
    → read_headers raw reads ≡ collected raw reads
unfolding read_headers
read_headers-split raw [] split e = rw (read_headers, e) refl
read_headers-split raw (bytes ∷ reads) split e = rw (read_headers, e) refl

take-append_front : (n : ℕ) (s t : Text) → n ≤ length s → take n (s ++ t) ≡ take n s
take-append_front zero s t h = refl
take-append_front (suc n) [] t h = absurd (omega arith)
take-append_front (suc n) (c ∷ s) t h =
    ap (λ (u : Text). c ∷ u) (take-append_front n s t (omega arith))

read_body-collects :
    (need : ℕ) (raw : Text) (reads : List Text)
    → Arrive reads
    → need ≤ length (raw ++ joined reads)
    → (got : Text) × (left : List Text) × (read_body need raw reads ≡ collected got left)
      × (take need got ≡ take need (raw ++ joined reads))
unfolding read_body
read_body-collects need raw [] a h =
    let enough : ltb (length raw) need ≡ false = ground (arith, h, append-nil raw) in
    (raw, [], rw (enough, read_body) refl, ap (take need) (sym (append-nil raw)))
read_body-collects need raw (bytes ∷ reads) (filled, a) h =
    elim (Bool-cases (ltb (length raw) need)) [
      | inr e ↦ (
        raw,
        bytes ∷ reads,
        rw (e, read_body) refl,
        sym (take-append_front need raw (joined (bytes ∷ reads)) (ground (arith, e))),
      )
      | inl e ↦
          let same = append_assoc raw bytes (joined reads) in
          let (got, left, g, k) =
            read_body-collects need (raw ++ bytes) reads a (omega (arith, h, ap length same)) in
          (got, left, rw (e, filled, g, read_body) refl, k ∙ ap (take need) same)
    ]

plain_body_complete :
    (need : ℕ) (raw : Text) (framing : HttpFraming)
    → Arrive framing.reads
    → need ≤ length (raw ++ joined framing.reads)
    → (plain_body need raw framing).0 ≡ request (take need (raw ++ joined framing.reads))
unfolding plain_body finish_message
plain_body_complete need raw framing a h =
    let (got, left, e, k) = read_body-collects need raw framing.reads a h in
    rw (e, plain_body) (ap request k)

-- The headers of a message whose body has `n` bytes.
pub record IsPlain (preflight : HeaderPreflight) (n : ℕ) : Type 0 where
  pub no_expect : is_empty preflight.expect ≡ true
  pub no_encoding : is_empty preflight.transfer_encoding ≡ true
  pub sized : is_empty preflight.content_length ≡ false
  pub number : parse_content_length_bytes preflight.content_length ≡ some n
  pub small : n ≤ max_http_body_bytes

split-filled :
    (raw : Text) (split : HttpHeaderSplit)
    → split_http_headers raw ≡ some split
    → is_empty raw ≡ false
unfolding split_http_headers split_at_first find_text
split-filled [] split e = cc
split-filled (c ∷ raw) split e = refl

module _ (send_ok : Text → Bool) (bad_request : Text) where
  read_by_length_complete :
      (rounds header_end n : ℕ) (raw : Text) (framing : HttpFraming)
      → n ≤ max_http_body_bytes
      → Arrive framing.reads
      → header_end + n ≤ length (raw ++ joined framing.reads)
      → (read_by_length send_ok bad_request rounds header_end raw (some n) false framing).0
        ≡ request (take (header_end + n) (raw ++ joined framing.reads))
  unfolding read_by_length
  read_by_length_complete rounds header_end n raw framing small a h =
      let within : ltb max_http_body_bytes n ≡ false = ground (arith, small) in
      rw (within, read_by_length) (plain_body_complete (header_end + n) raw framing a h)

  read_message_complete :
      (rounds header_end n : ℕ) (raw : Text) (framing : HttpFraming)
      → IsPlain (parse_header_preflight (take header_end raw)) n
      → Arrive framing.reads
      → header_end + n ≤ length (raw ++ joined framing.reads)
      → (read_message send_ok bad_request rounds header_end raw framing).0
        ≡ request (take (header_end + n) (raw ++ joined framing.reads))
  unfolding read_message read_by_headers
  read_message_complete rounds header_end n raw framing p a h =
      rw (p.no_expect, p.sized, p.number, read_message, read_by_headers, p.no_encoding)
        (read_by_length_complete rounds header_end n raw framing p.small a h)

  frame_from_complete :
      (rounds n : ℕ) (raw : Text) (framing : HttpFraming) (split : HttpHeaderSplit)
      → split_http_headers raw ≡ some split
      → IsPlain (parse_header_preflight (take split.header_section_end raw)) n
      → Arrive framing.reads
      → split.header_section_end + n ≤ length (raw ++ joined framing.reads)
      → (frame_from send_ok bad_request rounds raw framing).0
        ≡ request (take (split.header_section_end + n) (raw ++ joined framing.reads))
  unfolding frame_from
  frame_from_complete rounds n raw framing split e p a h =
      rw (read_headers-split raw framing.reads split e, frame_from, e)
        (read_message_complete rounds split.header_section_end n raw framing p a h)

  -- Where no read fails and the number of requests has no limit: a message whose header section is
  -- pending, with a content length within the limit, no expectation and no transfer encoding, and
  -- whose body arrives in reads cut in any way, is returned, and is exactly the first bytes of the
  -- connection up to the end of its body.
  pub read_next_request_complete :
      (rounds n : ℕ) (framing : HttpFraming) (split : HttpHeaderSplit)
      → split_http_headers framing.pending_request_data ≡ some split
      → IsPlain
          (parse_header_preflight (take split.header_section_end framing.pending_request_data))
          n
      → Arrive framing.reads
      → split.header_section_end + n ≤ length (unread framing)
      → (read_next_request send_ok bad_request rounds 0 framing).0
        ≡ request (take (split.header_section_end + n) (unread framing))
  unfolding read_next_request
  read_next_request_complete rounds n framing split e p a h =
      rw (split-filled framing.pending_request_data split e, read_next_request)
        (frame_from_complete rounds n framing.pending_request_data
          (record framing {
            pending_request_data = [];
            message_count = (framing.message_count + 1) % 2 ^ 32;
          })
          split e p a h)

-- ===== src/WebSocket/Decode.antt =====
-- Decoding a client's frame: the encoder's frame with the mask bit, a key and a masked payload.
use geruest.Prelude.{
  ℕ, ◌+◌, ◌*◌, ◌/◌, ◌%◌, ◌^◌, ◌<◌, ◌≤◌, ◌≡◌, refl, sym, ap, ◌∙◌, Bool, false, ◌&&◌, not, [], ◌∷◌,
  ◌++◌, append_assoc, Text, length, length-append, take, drop, take-append, drop-append, ltb, leb,
  if◌then◌else◌, Bool-cases, inl, inr, arith,
}
use geruest.Routes.{WebSocketLimits}
use geruest.WebSocket.{
  is_control_opcode, big_endian, length_bytes, read_uint64, unmask_payload, ok, message_of,
  decode_payload, decode_client_frame,
}
use geruest.WebSocket.Length.{length-big_endian, read_uint64-big_endian}
use geruest.WebSocket.Masking.{AreBytes, unmask_from_twice, length-unmask_from}

-- The mask bit of the first length byte.
abbrev pub mark : Text → Text
mark [] = []
mark (b ∷ bytes) = (b + 128) ∷ bytes

-- The first bytes of a client's frame.
abbrev pub client_header : ℕ → Bool → ℕ → Text
client_header op fin len = (op % 16 + (if fin then 128 else 0)) ∷ mark (length_bytes len)

abbrev pub client_frame : ℕ → Bool → Text → Text → Text
client_frame op fin key payload =
    client_header op fin (length payload) ++ key ++ unmask_payload key payload

-- A key of four bytes.
pub record IsKey (key : Text) : Type 0 where
  pub bytes : AreBytes key
  pub four : length key ≡ 4

-- What a client may send: control frames are whole and short.
pub record IsLegal (limits : WebSocketLimits) (op : ℕ) (fin : Bool) (payload : Text) : Type 0 where
  pub opcode : op < 16
  pub bytes : AreBytes payload
  pub fits : length payload ≤ limits.max_frame_bytes
  pub sane : limits.max_frame_bytes + 14 < 2 ^ 64
  pub whole : (is_control_opcode op && not fin) ≡ false
  pub short : (is_control_opcode op && ltb 125 (length payload)) ≡ false

module _ (limits : WebSocketLimits) (op : ℕ) (fin : Bool) (key payload rest : Text) (k : IsKey key)
    (legal : IsLegal limits op fin payload) where
  decode_payload_lem :
      (header : Text) (n : ℕ)
      → n ≡ length header
      → n ≤ 10
      → decode_payload limits fin op
          (length payload)
          n
          (header ++ key ++ unmask_payload key payload ++ rest)
        ≡ ok (message_of op payload) rest
  unfolding decode_payload
  decode_payload_lem header n e small =
      let masked = unmask_payload key payload in
      let front = header ++ key ++ masked in
      let size : length front ≡ n + 4 + length payload = omega (
        arith,
        length-append (header ++ key) masked,
        length-append header key,
        length-unmask_from 0 key payload,
        k.four,
      ) in
      let total : (n + 4 + length payload) % 2 ^ 64 ≡ n + 4 + length payload = omega arith in
      let long : length (front ++ rest) ≡ n + 4 + length payload + length rest =
        omega (arith, length-append front rest) in
      let key_is : take 4 (drop n (front ++ rest)) ≡ key =
        ap (λ t. take 4 (drop n t))
          (append_assoc (header ++ key) masked rest ∙ append_assoc header key (masked ++ rest))
        ∙ ap (take 4) (drop-append header (key ++ (masked ++ rest)) n e)
        ∙ take-append key (masked ++ rest) 4 (sym k.four) in
      let front_is : take (n + 4 + length payload) (front ++ rest) ≡ front =
        take-append front rest (n + 4 + length payload) (sym size) in
      let masked_is : drop (n + 4) front ≡ masked =
        drop-append (header ++ key) masked (n + 4)
          (omega (arith, length-append header key, k.four)) in
      let rest_is : drop (n + 4 + length payload) (front ++ rest) ≡ rest =
        drop-append front rest (n + 4 + length payload) (sym size) in
      let plain : unmask_payload key masked ≡ payload =
        unmask_from_twice 0 key payload k.bytes legal.bytes in
      rw (total, key_is, front_is, masked_is, rest_is, plain) (ground (arith, long))

  -- The first byte gives the opcode and the flag back.
  first_byte :
      (leb 128 ((op % 16 + (if fin then 128 else 0)) % 256) ≡ fin)
      × ((op % 16 + (if fin then 128 else 0)) % 16 ≡ op)
  first_byte = ground arith

  decode_short :
      length payload < 126
      → decode_client_frame limits (client_frame op fin key payload ++ rest)
        ≡ ok (message_of op payload) rest
  unfolding length_bytes
  decode_short h =
      let len = length payload in
      let b0 = op % 16 + (if fin then 128 else 0) in
      let e : length_bytes len ≡ len ∷ [] = ground arith in
      let bytes = (b0 ∷ (len + 128) ∷ []) ++ key ++ unmask_payload key payload ++ rest in
      let b1 : (len + 128) % 128 ≡ len = omega arith in
      let step : decode_client_frame limits bytes
          ≡ decode_payload limits (leb 128 (b0 % 256)) (b0 % 16) ((len + 128) % 128) 2 bytes =
        unfold decode_client_frame in ground arith in
      rw e (
        step
        ∙ rw (first_byte.0, first_byte.1, b1)
            (decode_payload_lem (b0 ∷ (len + 128) ∷ []) 2 refl (omega arith)))

  decode_medium :
      126 ≤ length payload
      → length payload ≤ 65535
      → decode_client_frame limits (client_frame op fin key payload ++ rest)
        ≡ ok (message_of op payload) rest
  unfolding length_bytes
  decode_medium h h' =
      let len = length payload in
      let b0 = op % 16 + (if fin then 128 else 0) in
      let l1 = len / 2 ^ 8 % 256 in
      let l0 = len % 256 in
      let e : length_bytes len ≡ 126 ∷ l1 ∷ l0 ∷ [] = ground arith in
      let bytes = (b0 ∷ 254 ∷ l1 ∷ l0 ∷ []) ++ key ++ unmask_payload key payload ++ rest in
      let value : l1 * 256 + l0 ≡ len = omega arith in
      let step : decode_client_frame limits bytes
          ≡ decode_payload limits (leb 128 (b0 % 256)) (b0 % 16) (l1 * 256 + l0) 4 bytes =
        unfold decode_client_frame in ground arith in
      rw e (
        step
        ∙ rw (first_byte.0, first_byte.1, value)
            (decode_payload_lem (b0 ∷ 254 ∷ l1 ∷ l0 ∷ []) 4 refl (omega arith)))

  decode_long :
      65536 ≤ length payload
      → decode_client_frame limits (client_frame op fin key payload ++ rest)
        ≡ ok (message_of op payload) rest
  unfolding length_bytes
  decode_long h =
      let len = length payload in
      let b0 = op % 16 + (if fin then 128 else 0) in
      let eight = big_endian 8 len in
      let e : length_bytes len ≡ 127 ∷ eight = ground arith in
      let bytes = (b0 ∷ 255 ∷ eight) ++ key ++ unmask_payload key payload ++ rest in
      let enough : 8 ≤ length (eight ++ key ++ unmask_payload key payload ++ rest) = omega (
        arith,
        length-append (eight ++ key ++ unmask_payload key payload) rest,
        length-append (eight ++ key) (unmask_payload key payload),
        length-append eight key,
        length-big_endian 8 len,
      ) in
      let read : take 8 (eight ++ key ++ unmask_payload key payload ++ rest) ≡ eight =
        ap (take 8) (
          append_assoc (eight ++ key) (unmask_payload key payload) rest
          ∙ append_assoc eight key (unmask_payload key payload ++ rest))
        ∙ take-append eight (key ++ (unmask_payload key payload ++ rest)) 8
            (sym (length-big_endian 8 len)) in
      let value : read_uint64 0 eight ≡ len = read_uint64-big_endian len (omega arith) in
      let step : decode_client_frame limits bytes
          ≡ decode_payload limits (leb 128 (b0 % 256)) (b0 % 16)
              (read_uint64 0 (take 8 (eight ++ key ++ unmask_payload key payload ++ rest))) 10
              bytes =
        unfold decode_client_frame in ground arith in
      rw e (
        step
        ∙ rw (first_byte.0, first_byte.1, read, value)
            (decode_payload_lem (b0 ∷ 255 ∷ eight) 10 (omega (arith, length-big_endian 8 len))
              (omega arith)))

  -- A client's frame of any length is decoded to its message, with exactly the bytes behind it
  -- left.
  pub decode-client_frame :
      decode_client_frame limits (client_frame op fin key payload ++ rest)
      ≡ ok (message_of op payload) rest
  decode-client_frame = elim (Bool-cases (ltb (length payload) 126)) [
    | inl e ↦ decode_short (ground arith)
    | inr e ↦ elim (Bool-cases (leb (length payload) 65535)) [
      | inl e' ↦ decode_medium (ground arith) (ground arith)
      | inr e' ↦ decode_long (ground arith)
    ]
  ]

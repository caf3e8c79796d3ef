-- ===== src/WebSocket.antt =====
-- src/server/WebSocket.cpp: the frame codec of RFC 6455. Bytes are numbers; an opcode is the low
-- half of the first byte, any of sixteen. The children model the connection and the handshake.
pub mod Masking
pub mod Length
pub mod Decode
pub mod Connection
pub mod WriteChain
pub mod Sha1
pub mod Handshake
mod Tests
use Prim.Native.Nat.{bit_xor}
use geruest.Prelude.{
  ℕ, zero, suc, ◌+◌, ◌*◌, ◌/◌, ◌%◌, ◌^◌, Bool, true, false, ◌&&◌, ◌||◌, not, List, [], ◌∷◌, ◌++◌,
  Text, length, take, drop, get_or, ltb, leb, ◌==◌, if◌then◌else◌,
}
use geruest.Routes.{WebSocketLimits}

-- `WSOpcode`.
abbrev pub op_continuation : ℕ
op_continuation = 0x0

abbrev pub op_text : ℕ
op_text = 0x1

abbrev pub op_binary : ℕ
op_binary = 0x2

abbrev pub op_close : ℕ
op_close = 0x8

abbrev pub op_ping : ℕ
op_ping = 0x9

abbrev pub op_pong : ℕ
op_pong = 0xA

abbrev pub is_control_opcode : ℕ → Bool
is_control_opcode op = leb 0x8 op && leb op 0xF

pub record WsMessage : Type 0 where
  pub opcode : ℕ
  pub payload : Text
  pub close_code : ℕ
  pub close_reason : Text

-- `makeText`, `makeBinary`, `makePing` and `makePong`: the other fields keep their defaults.
abbrev pub make_message : ℕ → Text → WsMessage
make_message op payload = record {
  opcode = op;
  payload = payload;
  close_code = 1005;
  close_reason = [];
}

-- `appendUint16BE`.
abbrev pub uint16_be : ℕ → Text
uint16_be v = v / 2 ^ 8 % 256 ∷ v % 256 ∷ []

abbrev pub make_close : ℕ → Text → WsMessage
make_close code reason = record {
  opcode = op_close;
  payload = uint16_be code ++ reason;
  close_code = code;
  close_reason = reason;
}

-- The loop over `shift`, from `8 * (n - 1)` down to 0.
unfoldable pub big_endian : ℕ → ℕ → Text
big_endian zero len = []
big_endian (suc n) len = len / 256 ^ n % 256 ∷ big_endian n len

-- The length bytes of a frame.
pub length_bytes : ℕ → Text
length_bytes len =
    if ltb len 126
    then len ∷ []
    else if leb len 0xFFFF
    then 126 ∷ uint16_be len
    else 127 ∷ big_endian 8 len

pub encode_server_frame : ℕ → Text → Bool → Text
unfolding length_bytes big_endian
encode_server_frame op payload fin =
    (op % 16 + (if fin then 128 else 0)) ∷ (length_bytes (length payload) ++ payload)

-- The loop `(len << 8) | byte` over eight bytes.
pub read_uint64 : ℕ → Text → ℕ
read_uint64 len [] = len
read_uint64 len (b ∷ bytes) = read_uint64 ((len * 256) % 2 ^ 64 + b) bytes

-- `payload[i] ^= mask[i % 4]`, from the index `i` on.
pub unmask_from : ℕ → Text → Text → Text
unmask_from i mask [] = []
unmask_from i mask (b ∷ payload) =
    bit_xor b (get_or mask (i % 4) 0) ∷ unmask_from (i + 1) mask payload

abbrev pub unmask_payload : Text → Text → Text
unmask_payload mask payload = unmask_from 0 mask payload

-- The exceptions of `decodeClientFrame`.
pub data FrameError : Type 0 where
  incomplete_frame not_masked incomplete_length frame_too_large : FrameError
  fragmented_control control_too_large : FrameError

-- A message with the bytes behind its frame, or an exception.
pub data Decoded : Type 0 where
  ok : WsMessage → Text → Decoded
  fail : FrameError → Decoded

-- The code and the reason of a close frame.
abbrev pub close_message : Text → WsMessage
close_message payload =
    if ltb (length payload) 2
    then make_close 1005 []
    else make_close (get_or payload 0 0 * 256 + get_or payload 1 0) (drop 2 payload)

-- The message of a whole frame.
pub message_of : ℕ → Text → WsMessage
message_of op payload =
    if op == op_close
    then close_message payload
    else if op == op_text
    then make_message op_text payload
    else if op == op_binary
    then make_message op_binary payload
    else if op == op_ping
    then make_message op_ping payload
    else if op == op_pong
    then make_message op_pong payload
    else make_message op_binary payload

-- Behind the length: the key, the payload and what follows. `header_len` bytes came before.
pub decode_payload : WebSocketLimits → Bool → ℕ → ℕ → ℕ → Text → Decoded
unfolding message_of
decode_payload limits fin op payload_len header_len bytes =
    if ltb limits.max_frame_bytes payload_len
    then fail frame_too_large
    else let total = (header_len + 4 + payload_len) % 2 ^ 64 in
      if ltb (length bytes) total
      then fail incomplete_frame
      else let payload =
          unmask_payload (take 4 (drop header_len bytes))
            (drop (header_len + 4) (take total bytes)) in
        if is_control_opcode op && not fin
        then fail fragmented_control
        else if is_control_opcode op && ltb 125 (length payload)
        then fail control_too_large
        else ok (message_of op payload) (drop total bytes)

pub decode_client_frame : WebSocketLimits → Text → Decoded
unfolding read_uint64
decode_client_frame limits bytes =
    if ltb (length bytes) 2
    then fail incomplete_frame
    else let b0 = get_or bytes 0 0 in
      let b1 = get_or bytes 1 0 in
      let fin = leb 128 (b0 % 256) in
      if not (leb 128 (b1 % 256))
      then fail not_masked
      else if b1 % 128 == 126
      then (if ltb (length bytes) 4
          then fail incomplete_length
          else decode_payload limits fin (b0 % 16) (get_or bytes 2 0 * 256 + get_or bytes 3 0) 4
              bytes)
      else if b1 % 128 == 127
      then (if ltb (length bytes) 10
          then fail incomplete_length
          else decode_payload limits fin (b0 % 16) (read_uint64 0 (take 8 (drop 2 bytes))) 10 bytes)
      else decode_payload limits fin (b0 % 16) (b1 % 128) 2 bytes

-- ===== src/WebSocket/Tests.antt =====
-- Frames of the source's unit tests, and instances of the theorems.
use geruest.Prelude.{◌≡◌, refl, true, false, [], ◌∷◌, ◌++◌, codes, Text, arith}
use geruest.Auth.Sha256.{zeros, big_endian, padded, first_words}
use geruest.Base64.{base64_encode, letter}
use geruest.Http.{ascii_lower, trim_sv, trim_start, is_space, split_on}
use geruest.Routes.{WebSocketLimits}
use geruest.WebSocket.Sha1.{
  more_words, choice, sha1_round, sha1_rounds, sha1_chunk, sha1_chunks, sha1_hash,
}
use geruest.WebSocket.Handshake.{
  compute_accept_key, header_contains_token, any_token, equals_no_case, pick_subprotocol,
  first_offered, find_offered,
}
use geruest.WebSocket.Handshake.Accepting.{IsAgreed, pick_subprotocol-IsAgreed}
use geruest.WebSocket.{op_text, encode_server_frame, ok, message_of, decode_client_frame}
use geruest.WebSocket.Connection.{Connection, written, read_message}
use geruest.WebSocket.Connection.Limits.{Ends, read_message-Ends}
use geruest.WebSocket.Decode.{client_frame, IsKey, IsLegal, decode-client_frame}

frame_tests :
    (encode_server_frame op_text (codes "Hi") true ≡ 0x81 ∷ 2 ∷ codes "Hi")
    × (encode_server_frame op_text [] false ≡ 1 ∷ 0 ∷ [])
unfolding encode_server_frame
frame_tests = (refl, refl)

abbrev limits : WebSocketLimits
limits = record {
  max_frame_bytes = 4194304;
  max_message_bytes = 16777216;
  idle_timeout = 0;
  ping_interval = 0;
}

abbrev key : Text
key = 0x37 ∷ 0xfa ∷ 0x21 ∷ 0x3d ∷ []

key-IsKey : IsKey key
key-IsKey = record { bytes = omega arith; four = refl }

hello-IsLegal : IsLegal limits op_text true (codes "Hello")
hello-IsLegal = record {
  opcode = omega arith;
  bytes = omega arith;
  fits = omega arith;
  sane = omega arith;
  whole = refl;
  short = refl;
}

decode-client_frame_example :
    decode_client_frame limits (client_frame op_text true key (codes "Hello") ++ codes "more")
    ≡ ok (message_of op_text (codes "Hello")) (codes "more")
decode-client_frame_example =
    decode-client_frame limits op_text true key (codes "Hello") (codes "more") key-IsKey
      hello-IsLegal

abbrev fresh : Connection
fresh = record {
  open_ = true;
  writes_enabled = true;
  close_code = 1005;
  close_reason = [];
  sent = [];
  writes = 0;
}

read_message-Ends_example :
    Ends limits
      (λ n. written)
      (read_message (λ n. written) limits (client_frame op_text true key (codes "Hello")) fresh)
read_message-Ends_example =
    read_message-Ends limits (λ n. written) (client_frame op_text true key (codes "Hello")) fresh
      (λ e. cc)

-- The example of RFC 6455.
compute_accept_key_test :
    compute_accept_key (codes "dGhlIHNhbXBsZSBub25jZQ==") ≡ codes "s3pPLMBiTxaQ9kYGzzhZRbK+xOo="
unfolding zeros big_endian padded first_words base64_encode letter more_words choice sha1_round
    sha1_rounds sha1_chunk sha1_chunks sha1_hash compute_accept_key
compute_accept_key_test = refl

token_tests :
    (header_contains_token (codes "keep-alive , Upgrade") (codes "upgrade") ≡ true)
    × (pick_subprotocol (codes "chat, ,Super") (codes "super" ∷ codes "CHAT" ∷ []) ≡ codes "CHAT")
unfolding header_contains_token any_token equals_no_case pick_subprotocol first_offered find_offered
    ascii_lower trim_sv trim_start is_space split_on
token_tests = (refl, refl)

pick_subprotocol-IsAgreed_example :
    IsAgreed
      (split_on b',' (codes "chat, ,Super"))
      (codes "super" ∷ codes "CHAT" ∷ [])
      (pick_subprotocol (codes "chat, ,Super") (codes "super" ∷ codes "CHAT" ∷ []))
pick_subprotocol-IsAgreed_example =
    pick_subprotocol-IsAgreed (codes "chat, ,Super") (codes "super" ∷ codes "CHAT" ∷ [])

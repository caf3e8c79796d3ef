-- ===== src/WebSocket/Handshake.antt =====
-- src/server/WebSocket.cpp: the helpers of the opening handshake.
pub mod Accepting
use geruest.Prelude.{
  ℕ, Bool, true, false, ◌&&◌, ◌||◌, not, List, [], ◌∷◌, ◌++◌, Option, none, some, Text, codes,
  text_eq, is_empty, map, if◌then◌else◌,
}
use geruest.Base64.{base64_encode}
use geruest.Cors.{get_header_view}
use geruest.Http.{ascii_lower, trim_sv, split_on}
use geruest.Http.Chunked.{crlf}
use geruest.Http.Request.{HttpRequest}
use geruest.WebSocket.Sha1.{sha1_hash}

abbrev web_socket_guid : Text
web_socket_guid = codes "258EAFA5-E914-47DA-95CA-C5AB0DC85B11"

-- `iequalsAscii`
unfoldable pub equals_no_case : Text → Text → Bool
unfolding ascii_lower
equals_no_case a b = text_eq (map ascii_lower a) (map ascii_lower b)

unfoldable pub any_token : Text → List Text → Bool
unfolding equals_no_case trim_sv
any_token token [] = false
any_token token (piece ∷ pieces) = equals_no_case (trim_sv piece) token || any_token token pieces

-- The loop of `headerContainsToken` passes over the separators before a piece; of a piece it compares
-- what is left without white space.
unfoldable pub header_contains_token : Text → Text → Bool
unfolding any_token split_on trim_sv
header_contains_token value token = any_token token (split_on b',' (trim_sv value))

unfoldable pub is_web_socket_upgrade_intent : HttpRequest → Bool
unfolding header_contains_token get_header_view
is_web_socket_upgrade_intent req =
    text_eq req.method (codes "GET")
    && header_contains_token (get_header_view req.headers (codes "upgrade")) (codes "websocket")

unfoldable pub is_web_socket_upgrade : HttpRequest → Bool
unfolding header_contains_token equals_no_case trim_sv get_header_view
is_web_socket_upgrade req =
    if not (text_eq req.method (codes "GET"))
    then false
    else if not
        (header_contains_token (get_header_view req.headers (codes "upgrade")) (codes "websocket"))
    then false
    else if not
        (header_contains_token (get_header_view req.headers (codes "connection")) (codes "upgrade"))
    then false
    else if not (
        equals_no_case (trim_sv (get_header_view req.headers (codes "sec-websocket-version")))
          (codes "13"))
    then false
    else if is_empty (trim_sv (get_header_view req.headers (codes "sec-websocket-key")))
    then false
    else true

unfoldable pub compute_accept_key : Text → Text
unfolding base64_encode sha1_hash
compute_accept_key sec_key = base64_encode (sha1_hash (sec_key ++ web_socket_guid))

-- The line of the subprotocol and the empty line.
unfoldable pub handshake_end : Text → Text
handshake_end subprotocol =
    if not (is_empty subprotocol)
    then codes "Sec-WebSocket-Protocol: " ++ (subprotocol ++ (crlf ++ crlf))
    else crlf

unfoldable pub build_handshake_response : Text → Text → Text
unfolding handshake_end
build_handshake_response accept_key subprotocol =
    codes
      "HTTP/1.1 101 Switching Protocols\r\nUpgrade: websocket\r\nConnection: Upgrade\r\nSec-WebSocket-Accept: "
    ++ (accept_key ++ (crlf ++ handshake_end subprotocol))

-- The inner loop of `pickSubprotocol`.
unfoldable pub find_offered : Text → List Text → Option Text
unfolding equals_no_case
find_offered token [] = none
find_offered token (offered ∷ more) =
    if equals_no_case token offered then some offered else find_offered token more

-- The outer loop: the client's tokens in their order.
unfoldable pub first_offered : List Text → List Text → Text
unfolding find_offered trim_sv
first_offered [] server_offered = []
first_offered (piece ∷ pieces) server_offered =
    let rest = first_offered pieces server_offered in
    elim (find_offered (trim_sv piece) server_offered) [ none ↦ rest | some offered ↦ offered ]

unfoldable pub pick_subprotocol : Text → List Text → Text
unfolding first_offered split_on
pick_subprotocol client_header server_offered =
    if is_empty client_header || is_empty server_offered
    then []
    else first_offered (split_on b',' client_header) server_offered

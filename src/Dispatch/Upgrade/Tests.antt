-- ===== src/Dispatch/Upgrade/Tests.antt =====
-- A run of the upgrade on a server with one socket, and an instance of the theorem about it.
use geruest.Prelude.{true, false, [], ◌∷◌, Text, codes}
use geruest.Http.Request.{HttpRequest, no_request}
use geruest.WebSocket.{op_close, make_close, encode_server_frame}
use geruest.WebSocket.Connection.{Connection, written, close}
use geruest.Dispatch.Sample.{server, env}
use geruest.Dispatch.{ran_gate, sent}
use geruest.Dispatch.Upgrade.{Sockets, Upgraded, new_connection, handshake}

-- A handler that leaves its connection open.
abbrev sockets : Sockets Text
sockets = record {
  run_web_socket = λ name request ws. (ws, false);
  send_not_found = λ request. [];
  handshake_is_sent = λ request. true;
  socket = λ n. written;
}

abbrev chat : HttpRequest
chat = record no_request {
  method = codes "GET";
  path = codes "/chat";
  headers =
      (codes "upgrade", codes "WebSocket")
      ∷ (codes "connection", codes "keep-alive, Upgrade")
      ∷ (codes "sec-websocket-version", codes "13")
      ∷ (codes "sec-websocket-key", codes "dGhlIHNhbXBsZSBub25jZQ==")
      ∷ [];
}

abbrev opened : Upgraded
opened = record {
  events = ran_gate ∷ sent (handshake env server sockets chat) ∷ [];
  connection = close sockets.socket 1000 [] new_connection;
}

-- The connection with its close frame, when its closing has ended.
abbrev closed_connection : Connection
closed_connection = record {
  open_ = false;
  writes_enabled = false;
  close_code = 1000;
  close_reason = [];
  sent = encode_server_frame op_close (make_close 1000 []).payload true ∷ [];
  writes = 1;
}

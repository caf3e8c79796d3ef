-- ===== src/Dispatch/Upgrade.antt =====
-- src/websocket/WebSocketUpgrade.cpp: the hook that turns a request into a WebSocket connection.
pub mod Sessions
mod Tests
use geruest.Prelude.{
  ℕ, Bool, true, false, ◌&&◌, not, List, [], ◌∷◌, ◌++◌, Option, none, some, Text, codes, has_value,
  is_empty, text_eq, if◌then◌else◌,
}
use geruest.Cors.{get_header_view}
use geruest.Http.Request.{HttpRequest, get_header}
use geruest.Http.Response.{HttpResponse, serialize, response_bad_request}
use geruest.Routes.{find_matching_web_socket_route}
use geruest.WebSocket.Connection.{Connection, Socket, close}
use geruest.WebSocket.Handshake.{
  is_web_socket_upgrade, is_web_socket_upgrade_intent, compute_accept_key, pick_subprotocol,
  build_handshake_response,
}
use geruest.Dispatch.{ServerData, Environment, Event, sent}
use geruest.Dispatch.Gating.{record_5xx_metric, check_route_gate_denial}
use geruest.Dispatch.Routing.{with_cors, record_denial}

-- The rest of what an upgrade depends on: what the handler of a socket leaves of its connection and
-- whether it throws, the 404 page, whether the handshake is sent, and what comes of the writes.
pub record Sockets (W : Type 0) : Type 0 where
  pub run_web_socket : W → HttpRequest → Connection → Connection × Bool
  pub send_not_found : HttpRequest → List Event
  pub handshake_is_sent : HttpRequest → Bool
  pub socket : Socket

-- The events, and the connection if there was one that was left; none also stands for one whose
-- closing waits for ever. In each case `markUpgraded` has been called, so
-- that no further request is read.
pub record Upgraded : Type 0 where
  pub events : List Event
  pub connection : Option Connection

abbrev pub new_connection : Connection
new_connection = record {
  open_ = true;
  writes_enabled = true;
  close_code = 1005;
  close_reason = [];
  sent = [];
  writes = 0;
}

module _ {R A W S G : Type 0} (env : Environment R A S G) (server : ServerData R A W S G)
    (sockets : Sockets W) where
  abbrev pub refused : List Event → Upgraded
  refused events = record { events = events; connection = none }

  -- `buildHandshakeResponse` with the key and the subprotocol of the request.
  unfoldable pub handshake : HttpRequest → Text
  unfolding get_header get_header_view compute_accept_key pick_subprotocol build_handshake_response
  handshake request =
      build_handshake_response (compute_accept_key (get_header request (codes "sec-websocket-key")))
        (pick_subprotocol (get_header_view request.headers (codes "sec-websocket-protocol"))
          server.routes.web_socket_subprotocols)

  -- What follows the handler: a connection that is still open is closed.
  unfoldable pub after_handler : Connection × Bool → Option Connection
  after_handler (ws, handler_failed) =
      if ws.open_
      then (if handler_failed
          then close sockets.socket 1011 (codes "internal error") ws
          else close sockets.socket 1000 [] ws)
      else some ws

  abbrev failure_events : HttpRequest → Connection × Bool → List Event
  failure_events request (ws, handler_failed) =
      if handler_failed then record_5xx_metric request else []

  unfoldable pub open_socket : HttpRequest → List Event → W → Upgraded
  unfolding handshake after_handler record_5xx_metric
  open_socket request asked handler =
      if not (sockets.handshake_is_sent request) then refused asked else record {
        events =
            asked
            ++ sent (handshake request)
              ∷ failure_events request (sockets.run_web_socket handler request new_connection);
        connection = after_handler (sockets.run_web_socket handler request new_connection);
      }

  unfoldable pub after_socket_gate : HttpRequest → W → List Event × Option HttpResponse → Upgraded
  unfolding record_denial with_cors serialize open_socket
  after_socket_gate request handler (asked, some denial) = refused (
      asked
      ++ (record_denial env server request denial
          ++ sent (serialize (with_cors env server request false denial)) ∷ []))
  after_socket_gate request handler (asked, none) = open_socket request asked handler

  unfoldable pub find_socket : HttpRequest → Option W → Upgraded
  unfolding after_socket_gate check_route_gate_denial
  find_socket request none = refused (sockets.send_not_found request)
  find_socket request (some handler) =
      after_socket_gate request handler (check_route_gate_denial env server request)

  -- `handleUpgrade`; none where it returns false.
  unfoldable pub handle_upgrade : HttpRequest → Option Upgraded
  unfolding is_web_socket_upgrade is_web_socket_upgrade_intent find_socket serialize
  handle_upgrade request =
      if not (text_eq request.method (codes "GET"))
      then none
      else if not (is_web_socket_upgrade request)
      then (if is_web_socket_upgrade_intent request
            && has_value (find_matching_web_socket_route server.routes request.path)
          then some (refused (sent (serialize response_bad_request) ∷ []))
          else none)
      else if not (is_empty request.body)
      then some (refused (sent (serialize response_bad_request) ∷ []))
      else some (find_socket request (find_matching_web_socket_route server.routes request.path))

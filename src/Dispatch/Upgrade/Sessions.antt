-- ===== src/Dispatch/Upgrade/Sessions.antt =====
-- src/websocket/WebSocketUpgrade.cpp: when a request becomes a connection, and how the connection ends.
use geruest.Prelude.{◌≡◌, true, false, List, [], ◌∷◌, ◌++◌, Option, none, some}
use geruest.Gates.{find_resolved_route_gate}
use geruest.Http.Request.{HttpRequest}
use geruest.Routes.{find_matching_web_socket_route}
use geruest.WebSocket.Connection.{Connection}
use geruest.WebSocket.Handshake.{is_web_socket_upgrade}
use geruest.Dispatch.{ServerData, Environment, Event, sent}
use geruest.Dispatch.Routing.Responses.{gate_allows}
use geruest.Dispatch.Upgrade.{Sockets, Upgraded, handshake}

-- Closed, if closing ends.
abbrev IsClosed : Option Connection → Type 0
IsClosed none = Unit
IsClosed (some ws) = ws.open_ ≡ false

module _ {R A W S G : Type 0} (env : Environment R A S G) (server : ServerData R A W S G)
    (sockets : Sockets W) where
  -- The request is a whole upgrade request without a body, for a socket whose gate allows it; the
  -- handshake is among the events, and the connection is closed in the end.
  pub record IsSession (request : HttpRequest) (upgraded : Upgraded) (ws : Connection)
      : Type 0 where
    pub asked_for : is_web_socket_upgrade request ≡ true
    pub no_body : request.body ≡ []
    pub routed :
        (handler : W) × (find_matching_web_socket_route server.routes request.path ≡ some handler)
    pub allowed :
        gate_allows env server request (find_resolved_route_gate server.gates request.path) ≡ true
    pub greeted :
        (before after : List Event) × (upgraded.events
          ≡ before ++ sent (handshake env server sockets request) ∷ after)
    pub closed : ws.open_ ≡ false

  abbrev WasOpened : HttpRequest → Upgraded → Option Connection → Type 0
  WasOpened request upgraded none = Unit
  WasOpened request upgraded (some ws) = IsSession request upgraded ws

  abbrev AnyOpened : HttpRequest → Option Upgraded → Type 0
  AnyOpened request none = Unit
  AnyOpened request (some upgraded) = WasOpened request upgraded upgraded.connection

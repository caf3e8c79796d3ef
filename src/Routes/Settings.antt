-- ===== src/Routes/Settings.antt =====
-- src/data/RouteRegistry.hpp: the setters of the route registry, and the list of subprotocols.
use geruest.Prelude.{ℕ, [], ◌∷◌, ◌++◌, Option, Text}
use geruest.Language.{LanguageConfig}
use geruest.Routes.{RouteRegistry, WebSocketLimits}

module _ {R A W : Type 0} where
  -- A null pointer is `none`.
  pub set_route_languages : Option LanguageConfig → RouteRegistry R A W → RouteRegistry R A W
  set_route_languages languages registry = record registry { languages = languages }

  -- What the four setters of a limit do with it.
  with_limits : WebSocketLimits → RouteRegistry R A W → RouteRegistry R A W
  with_limits limits registry = record registry { web_socket_limits = limits }

  pub set_web_socket_max_message_bytes : ℕ → RouteRegistry R A W → RouteRegistry R A W
  set_web_socket_max_message_bytes bytes registry =
      with_limits (record registry.web_socket_limits { max_message_bytes = bytes }) registry

  pub set_web_socket_max_frame_bytes : ℕ → RouteRegistry R A W → RouteRegistry R A W
  set_web_socket_max_frame_bytes bytes registry =
      with_limits (record registry.web_socket_limits { max_frame_bytes = bytes }) registry

  pub set_web_socket_idle_timeout : ℕ → RouteRegistry R A W → RouteRegistry R A W
  set_web_socket_idle_timeout seconds registry =
      with_limits (record registry.web_socket_limits { idle_timeout = seconds }) registry

  pub set_web_socket_ping_interval : ℕ → RouteRegistry R A W → RouteRegistry R A W
  set_web_socket_ping_interval seconds registry =
      with_limits (record registry.web_socket_limits { ping_interval = seconds }) registry

  pub add_web_socket_subprotocol : Text → RouteRegistry R A W → RouteRegistry R A W
  add_web_socket_subprotocol name registry = record registry {
    web_socket_subprotocols = registry.web_socket_subprotocols ++ name ∷ [];
  }

-- ===== src/Dispatch/Sample.antt =====
-- A small server that the runs below src/handler and src/websocket share: the handlers of routes are
-- their outcomes, those of gates their answers.
use geruest.Prelude.{Bool, true, false, not, [], ◌∷◌, Option, none, some, Text, codes, contains}
use geruest.Gates.{GateRegistry}
use geruest.Http.Response.{HttpResponse}
use geruest.Language.{LanguageConfig}
use geruest.Routes.{RouteRegistry}
use geruest.Dispatch.{ServerData, Outcome, returned, raised, Environment}

abbrev pub languages : LanguageConfig
languages = record { available_languages = []; default_language = codes "en" }

abbrev pub home : HttpResponse
home = record { status = codes "200 OK"; headers = []; body = codes "home" }

abbrev pub routes : RouteRegistry Outcome Outcome Text
routes = record {
  languages = none;
  routes = (codes "/sync", returned home) ∷ (codes "/bad", raised) ∷ [];
  wildcard_routes = [];
  async_routes = (codes "/async", returned home) ∷ [];
  async_wildcard_routes = [];
  web_socket_routes = (codes "/chat", codes "chat") ∷ [];
  web_socket_wildcard_routes = [];
  web_socket_limits = record {
    max_frame_bytes = 4194304;
    max_message_bytes = 16777216;
    idle_timeout = 0;
    ping_interval = 0;
  };
  web_socket_subprotocols = [];
  redirects = [];
  wildcard_redirects = [];
}

abbrev pub gates : GateRegistry (Option Bool) (Option Bool)
gates = record {
  languages = none;
  page_gates = [];
  wildcard_page_gates = [];
  async_page_gates = [];
  wildcard_async_page_gates = [];
  route_gates =
      (codes "/sync", some false) ∷ (codes "/async", some false) ∷ (codes "/chat", some true) ∷ [];
  wildcard_route_gates = [];
  async_route_gates = [];
  wildcard_async_route_gates = [];
}

abbrev pub server : ServerData Outcome Outcome Text (Option Bool) (Option Bool)
server = record {
  languages = languages;
  routes = routes;
  gates = gates;
  cors = record { enabled = false; origins = []; paths = []; allow_headers = [] };
  basic_auth = record {
    enabled = true;
    users = (codes "u", codes "hash") ∷ [];
    protected_pages = codes "/admin" ∷ [];
  };
  root = codes "/srv";
}

abbrev pub env : Environment Outcome Outcome (Option Bool) (Option Bool)
env = record {
  run_route = λ outcome request. outcome;
  run_async_route = λ outcome request. outcome;
  run_gate = λ allowed request. allowed;
  run_async_gate = λ allowed request. allowed;
  gzip_compress = λ bytes. none;
  is_safe_path = λ root path. not (contains b'~' path);
  merged_asset_owner = λ path. none;
  upgrade = λ request. none;
}

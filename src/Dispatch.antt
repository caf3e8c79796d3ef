-- ===== src/Dispatch.antt =====
-- src/handler: the way of a request from the parsed request to what is sent. What a call does is the
-- list of its events. The callbacks of the application, zlib, the path test of the file system and
-- the hooks of the modules are fields of an environment.
pub mod Compression
pub mod Gating
pub mod Files
pub mod Routing
pub mod Upgrade
pub mod Session
pub mod Sample
use geruest.Prelude.{Bool, List, Option, Text, codes, text_eq}
use geruest.Auth.{BasicAuth}
use geruest.Cors.{CorsConfig}
use geruest.Gates.{GateRegistry}
use geruest.Http.Request.{HttpRequest}
use geruest.Http.Response.{HttpResponse}
use geruest.Language.{LanguageConfig}
use geruest.Routes.{RouteRegistry}

-- The parts of `ServerData` that the handlers read. Handlers of routes have the types `R`, `A` and
-- `W`, gates the types `S` and `G`.
pub record ServerData (R A W S G : Type 0) : Type 0 where
  pub languages : LanguageConfig
  pub routes : RouteRegistry R A W
  pub gates : GateRegistry S G
  pub cors : CorsConfig
  pub basic_auth : BasicAuth
  pub root : Text

-- What a call of a route handler comes to: a response, `method_not_allowed` with the methods that
-- are allowed, or another exception.
pub data Outcome : Type 0 where
  returned : HttpResponse → Outcome
  not_allowed : Text → Outcome
  raised : Outcome

-- A handler or a gate was called, a response was counted as an error, bytes were sent, or a file was
-- served: whether it is processed for each request anew, its content type and its path.
pub data Event : Type 0 where
  ran_route : Event
  ran_gate : Event
  counted_4xx : Event
  counted_5xx : Event
  sent : Text → Event
  served : Bool → Text → Text → Event

-- A gate gives no answer where it throws. The upgrade gives no events where it leaves the request
-- to the routes.
pub record Environment (R A S G : Type 0) : Type 0 where
  pub run_route : R → HttpRequest → Outcome
  pub run_async_route : A → HttpRequest → Outcome
  pub run_gate : S → HttpRequest → Option Bool
  pub run_async_gate : G → HttpRequest → Option Bool
  pub gzip_compress : Text → Option Text
  pub is_safe_path : Text → Text → Bool
  pub merged_asset_owner : Text → Option Text
  pub upgrade : HttpRequest → Option (List Event)

-- `isMetricsExcludedPath`
abbrev pub is_metrics_excluded_path : Text → Bool
is_metrics_excluded_path path = text_eq path (codes "/status")

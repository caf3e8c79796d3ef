-- ===== src/Dispatch/Session.antt =====
-- src/handler/Handler.cpp and src/server/HttpSession.cpp: the loop over the requests of a connection.
-- What the framing delivers is a list.
pub mod Limits
mod Tests
use geruest.Prelude.{
  ℕ, ◌+◌, ◌%◌, ◌^◌, Bool, true, false, ◌&&◌, not, List, [], ◌∷◌, Option, none, some, Text, codes,
  has_value, leb, ◌==◌, if◌then◌else◌,
}
use geruest.Cors.{get_header_view}
use geruest.Http.Headers.{http_should_close_after_response}
use geruest.Http.Request.{HttpRequest}
use geruest.Dispatch.{ServerData, Environment, is_metrics_excluded_path}
use geruest.Dispatch.Routing.{Dispatched, is_preflight, handle_request}

-- A request that was handled: whether it counts for the metrics, what it came to, and whether its
-- latency was recorded.
pub record Handled : Type 0 where
  pub request : HttpRequest
  pub counted : Bool
  pub dispatched : Dispatched
  pub timed : Bool

-- What a connection came to; `recordError` is called where an exception ends it.
pub record Session : Type 0 where
  pub handled : List Handled
  pub failed : Bool

module _ {R A W S G : Type 0} (env : Environment R A S G) (server : ServerData R A W S G) where
  -- `_upgraded`, which the hook has set where it returns true.
  unfoldable pub is_upgraded : HttpRequest → Bool
  unfolding is_preflight
  is_upgraded request = not (is_preflight env server request) && has_value (env.upgrade request)

  unfoldable pub closes_after : HttpRequest → Bool
  unfolding http_should_close_after_response get_header_view
  closes_after request =
      http_should_close_after_response request.raw_request_line
        (get_header_view request.headers (codes "connection"))

  unfoldable pub handled_request : HttpRequest → Handled
  unfolding is_upgraded handle_request
  handled_request request =
      let dispatched = handle_request env server request in
      let counted = not (is_metrics_excluded_path request.path) in
      record {
        request = request;
        counted = counted;
        dispatched = dispatched;
        timed = counted && not dispatched.escaped && not (is_upgraded request);
      }

  -- A round that handles a request, and the rounds that follow it.
  unfoldable pub after_request : Handled → Session → Session
  unfolding is_upgraded closes_after
  after_request handled rest =
      if handled.dispatched.escaped
      then record { handled = handled ∷ []; failed = true }
      else if is_upgraded handled.request
      then record { handled = handled ∷ []; failed = false }
      else if closes_after handled.request
      then record { handled = handled ∷ []; failed = false }
      else record { handled = handled ∷ rest.handled; failed = rest.failed }

  -- `runAsync`, whose `messageCount_` is an unsigned int; none is an outcome of the framing that is no request, which ends the loop.
  unfoldable pub run : ℕ → ℕ → List (Option HttpRequest) → Session
  unfolding handled_request after_request
  run max_requests message_count [] = record { handled = []; failed = false }
  run max_requests message_count (framed ∷ more) =
      let rest = run max_requests ((message_count + 1) % 2 ^ 32) more in
      if not (max_requests == 0) && leb max_requests message_count
      then record { handled = []; failed = false }
      else elim framed [
        | none ↦ record { handled = []; failed = false }
        | some request ↦ after_request (handled_request request) rest
      ]

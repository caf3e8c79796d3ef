-- ===== src/Dispatch/Gating.antt =====
-- src/handler/GateEvaluation.hpp and Handler.cpp: gates and Basic authentication.
use geruest.Prelude.{
  Bool, true, false, ◌&&◌, not, List, [], ◌∷◌, ◌++◌, Option, none, some, Text, codes, if◌then◌else◌,
}
use geruest.Auth.{requires_auth, authenticate}
use geruest.Gates.{
  Handler, sync, async, ResolvedPageGate, find_resolved_page_gate, find_resolved_route_gate,
  resolve_page_gate_redirect,
}
use geruest.Http.Request.{HttpRequest, get_header}
use geruest.Http.Response.{
  HttpResponse, serialize, new_response, with_header, with_body, status_response, build_auth_header,
}
use geruest.Paths.{canonical_request_path}
use geruest.Dispatch.{
  ServerData, Environment, Event, ran_gate, counted_4xx, counted_5xx, sent,
  is_metrics_excluded_path,
}

-- `record4xxMetric` and `record5xxMetric`.
unfoldable pub record_4xx_metric : HttpRequest → List Event
record_4xx_metric request = if is_metrics_excluded_path request.path then [] else counted_4xx ∷ []

unfoldable pub record_5xx_metric : HttpRequest → List Event
record_5xx_metric request = if is_metrics_excluded_path request.path then [] else counted_5xx ∷ []

abbrev pub response_internal_server_error : HttpResponse
response_internal_server_error = status_response (codes "500 Internal Server Error")

abbrev pub response_forbidden : HttpResponse
response_forbidden = status_response (codes "403 Forbidden")

-- What a gate's answer makes of a route: the response that denies it, or none.
unfoldable pub denial_of : Option Bool → Option HttpResponse
denial_of none = some response_internal_server_error
denial_of (some true) = none
denial_of (some false) = some response_forbidden

-- `PageAccessDenyStyle`
pub data PageAccessDenyStyle : Type 0 where
  redirect_style forbidden_style : PageAccessDenyStyle

-- The 302 of a page that is denied.
unfoldable pub redirect_response : Text → Text → HttpResponse
unfolding with_body with_header new_response
redirect_response status target =
    with_body [] (with_header (codes "Location") target (new_response status))

module _ {R A W S G : Type 0} (env : Environment R A S G) (server : ServerData R A W S G) where
  unfoldable pub evaluate_resolved_gate : Handler S G → HttpRequest → Option Bool
  evaluate_resolved_gate (sync gate) request = env.run_gate gate request
  evaluate_resolved_gate (async gate) request = env.run_async_gate gate request

  unfoldable pub route_gate_denial :
      HttpRequest → Option (Handler S G) → List Event × Option HttpResponse
  unfolding evaluate_resolved_gate denial_of
  route_gate_denial request none = ([], none)
  route_gate_denial request (some gate) =
      (ran_gate ∷ [], denial_of (evaluate_resolved_gate gate request))

  unfoldable pub check_route_gate_denial : HttpRequest → List Event × Option HttpResponse
  unfolding route_gate_denial
  check_route_gate_denial request =
      route_gate_denial request (find_resolved_route_gate server.gates request.path)

  -- What follows a page gate's answer: the events, and whether the page may be served.
  unfoldable pub after_page_gate :
      HttpRequest → PageAccessDenyStyle → Text → Option Bool → List Event × Bool
  unfolding record_5xx_metric redirect_response serialize
  after_page_gate request style redirect_to none = (
    ran_gate ∷ (record_5xx_metric request ++ sent (serialize response_internal_server_error) ∷ []),
    false,
  )
  after_page_gate request style redirect_to (some true) = (ran_gate ∷ [], true)
  after_page_gate request forbidden_style redirect_to (some false) =
      (ran_gate ∷ sent (serialize response_forbidden) ∷ [], false)
  after_page_gate request redirect_style redirect_to (some false) =
      let target = resolve_page_gate_redirect server.gates redirect_to request.path in
      (ran_gate ∷ sent (serialize (redirect_response (codes "302 Found") target)) ∷ [], false)

  -- The gate that was resolved before, or the one of the page.
  unfoldable pub gate_of : Text → Option (ResolvedPageGate S G) → Option (ResolvedPageGate S G)
  gate_of page_path none = find_resolved_page_gate server.gates page_path
  gate_of page_path (some gate) = some gate

  unfoldable pub pass_page_gate :
      HttpRequest → PageAccessDenyStyle → Option (ResolvedPageGate S G) → List Event × Bool
  unfolding after_page_gate evaluate_resolved_gate
  pass_page_gate request style none = ([], true)
  pass_page_gate request style (some gate) =
      after_page_gate request style gate.redirect_to (evaluate_resolved_gate gate.handler request)

  unfoldable pub enforce_page_access :
      HttpRequest → Text → PageAccessDenyStyle → Option (ResolvedPageGate S G) → List Event × Bool
  unfolding pass_page_gate requires_auth authenticate get_header gate_of
  enforce_page_access request page_path style resolved =
      let canonical = canonical_request_path page_path in
      if requires_auth canonical server.basic_auth
        && not
            (authenticate canonical (get_header request (codes "authorization")) server.basic_auth)
      then (sent build_auth_header ∷ [], false)
      else pass_page_gate request style (gate_of page_path resolved)

-- ===== src/Dispatch/Routing.antt =====
-- src/handler/RouteDispatcher.cpp, Handler.cpp and ResponseWriter.cpp: redirects, routes, gates and
-- files, in the order in which a request meets them.
pub mod Events
pub mod Responses
pub mod Protection
mod Tests
use geruest.Prelude.{
  ℕ, Bool, true, false, ◌&&◌, ◌||◌, not, List, [], ◌∷◌, ◌++◌, Option, none, some, Text, codes,
  get_or, has_value, is_empty, text_eq, ◌==◌, if◌then◌else◌,
}
use geruest.Auth.{requires_auth}
use geruest.Cors.{Request, resolve_origin, matches_path, apply_cors_headers, get_header_view}
use geruest.Gates.{ResolvedPageGate, find_resolved_page_gate}
use geruest.Http.Request.{HttpRequest}
use geruest.Http.Response.{HttpResponse, serialize, status_response, response_method_not_allowed}
use geruest.Paths.{canonical_request_path}
use geruest.Routes.{
  Redirect, find_matching_route, find_matching_async_route, find_matching_redirect,
}
use geruest.Dispatch.{
  ServerData, Outcome, returned, not_allowed, raised, Environment, Event, ran_route, counted_4xx,
  counted_5xx, sent, served,
}
use geruest.Dispatch.Compression.{apply_response_compression}
use geruest.Dispatch.Files.{get_extension, get_content_type, build_path}
use geruest.Dispatch.Gating.{
  record_4xx_metric, record_5xx_metric, response_internal_server_error, response_forbidden,
  redirect_response, PageAccessDenyStyle, redirect_style, forbidden_style, check_route_gate_denial,
  enforce_page_access,
}

-- What a request comes to: the events, and whether an exception leaves the dispatcher.
pub record Dispatched : Type 0 where
  pub events : List Event
  pub escaped : Bool

abbrev pub done : List Event → Dispatched
done events = record { events = events; escaped = false }

abbrev pub cors_request : HttpRequest → Request
cors_request request = record { path = request.path; headers = request.headers }

abbrev pub text_html : Text
text_html = codes "text/html"

abbrev pub text_javascript : Text
text_javascript = codes "text/javascript"

abbrev pub text_css : Text
text_css = codes "text/css"

module _ {R A W S G : Type 0} (env : Environment R A S G) (server : ServerData R A W S G) where
  unfoldable pub with_cors : HttpRequest → Bool → HttpResponse → HttpResponse
  with_cors request preflight response = record response {
    headers =
        apply_cors_headers response.headers server.cors (some (cors_request request)) preflight;
  }

  -- CORS headers, compression and `serializeTo`.
  unfoldable pub finish_response : HttpRequest → HttpResponse → Text
  unfolding with_cors apply_response_compression serialize
  finish_response request response =
      serialize
        (apply_response_compression env.gzip_compress request (with_cors request false response))

  -- The metric of a response by the first digit of its status.
  unfoldable pub record_status : HttpRequest → Text → List Event
  unfolding record_4xx_metric record_5xx_metric
  record_status request [] = []
  record_status request (c ∷ status) =
      if c == b'4'
      then record_4xx_metric request
      else if c == b'5'
      then record_5xx_metric request
      else []

  -- The `try` block of `dispatchRouteAndSendAsync` and what catches its exceptions.
  unfoldable pub answer : HttpRequest → Outcome → List Event
  unfolding record_status finish_response record_4xx_metric record_5xx_metric
  answer request (returned response) =
      record_status request response.status ++ sent (finish_response request response) ∷ []
  answer request (not_allowed allow_methods) =
      record_4xx_metric request
      ++ sent (finish_response request (response_method_not_allowed allow_methods)) ∷ []
  answer request raised =
      record_5xx_metric request
      ++ sent (finish_response request response_internal_server_error) ∷ []

  -- The metric of a denial.
  unfoldable pub record_denial : HttpRequest → HttpResponse → List Event
  unfolding record_4xx_metric record_5xx_metric
  record_denial request denial =
      if not (is_empty denial.status) && (get_or denial.status 0 0 == b'5')
      then record_5xx_metric request
      else record_4xx_metric request

  -- `tryDispatchRoute`, with what `co_await`ing the handler does.
  unfoldable pub after_route_gate :
      HttpRequest → List Event → Outcome → List Event × Option HttpResponse → List Event
  unfolding record_denial finish_response answer
  after_route_gate request awaited outcome (asked, none) =
      asked ++ (awaited ++ answer request outcome)
  after_route_gate request awaited outcome (asked, some denial) =
      asked ++ (record_denial request denial ++ sent (finish_response request denial) ∷ [])

  unfoldable pub try_dispatch_route : HttpRequest → List Event → Outcome → List Event
  unfolding check_route_gate_denial after_route_gate
  try_dispatch_route request awaited outcome =
      after_route_gate request awaited outcome (check_route_gate_denial env server request)

  -- The handler of a synchronous route is called for the argument of `tryDispatchRoute`, outside of
  -- the `try` block.
  unfoldable pub dispatch_sync : HttpRequest → Outcome → Dispatched
  unfolding try_dispatch_route
  dispatch_sync request (returned response) =
      done (ran_route ∷ try_dispatch_route request [] (returned response))
  dispatch_sync request (not_allowed allow_methods) = record {
    events = ran_route ∷ [];
    escaped = true;
  }
  dispatch_sync request raised = record { events = ran_route ∷ []; escaped = true }

  -- `perRequestText` of a page.
  unfoldable pub is_per_request_page : HttpRequest → Bool
  unfolding requires_auth
  is_per_request_page request =
      requires_auth request.path server.basic_auth
      || has_value (find_resolved_page_gate server.gates request.path)

  unfoldable pub page_requires_access_control : Text → Bool
  unfolding requires_auth
  page_requires_access_control page_path =
      has_value (find_resolved_page_gate server.gates (canonical_request_path page_path))
      || requires_auth (canonical_request_path page_path) server.basic_auth

  -- The owner of a merged asset, if it is under access control.
  unfoldable pub controlled_owner : HttpRequest → Option Text
  unfolding page_requires_access_control
  controlled_owner request = elim (env.merged_asset_owner request.path) [
    | none ↦ none
    | some owner ↦ if page_requires_access_control owner then some owner else none
  ]

  -- The text is processed for this request once the access is granted.
  unfoldable pub after_access : List Event × Bool → Text → Text → List Event
  after_access (events, granted) content_type content_path =
      if granted then events ++ served true content_type content_path ∷ [] else events

  unfoldable pub send_asset : HttpRequest → Option Text → Text → Text → List Event
  unfolding enforce_page_access after_access
  send_asset request none content_type content_path = served false content_type content_path ∷ []
  send_asset request (some owner) content_type content_path =
      after_access (enforce_page_access env server request owner forbidden_style none) content_type
        content_path

  -- `sendFileAsync` as far as the decision whether and how the file is served.
  unfoldable pub send_file : HttpRequest → Text → Text → List Event
  unfolding is_per_request_page enforce_page_access after_access send_asset controlled_owner
  send_file request content_type content_path =
      if text_eq content_type text_html
      then (if is_per_request_page request
          then after_access
              (enforce_page_access env server request request.path redirect_style
                (find_resolved_page_gate server.gates request.path))
              content_type content_path
          else served false content_type content_path ∷ [])
      else if text_eq content_type text_javascript || text_eq content_type text_css
      then send_asset request (controlled_owner request) content_type content_path
      else served false content_type content_path ∷ []

  -- The end of `dispatchAsync`.
  unfoldable pub dispatch_file : HttpRequest → List Event
  unfolding get_extension get_content_type build_path send_file
  dispatch_file request =
      let extension = get_extension request.path in
      send_file request (get_content_type extension)
        (build_path server.languages server.root env.is_safe_path request extension request.path)

  unfoldable pub send_redirect : HttpRequest → Redirect → List Event
  unfolding with_cors redirect_response serialize
  send_redirect request (target, status) =
      let status_text =
        if status == 302 then codes "302 Found" else codes "301 Moved Permanently" in
      sent (serialize (with_cors request false (redirect_response status_text target))) ∷ []

  -- The routes, of which an asynchronous one wins.
  unfoldable pub dispatch_routes : HttpRequest → Option A → Option R → Dispatched
  unfolding try_dispatch_route dispatch_sync dispatch_file
  dispatch_routes request (some handler) route =
      done (try_dispatch_route request (ran_route ∷ []) (env.run_async_route handler request))
  dispatch_routes request none (some handler) =
      dispatch_sync request (env.run_route handler request)
  dispatch_routes request none none = done (dispatch_file request)

  -- A redirect comes before the routes.
  unfoldable pub dispatch_redirect : HttpRequest → Option Redirect → Dispatched
  unfolding send_redirect dispatch_routes
  dispatch_redirect request (some redirect) = done (send_redirect request redirect)
  dispatch_redirect request none =
      dispatch_routes request (find_matching_async_route server.routes request.path)
        (find_matching_route server.routes request.path)

  -- `dispatchAsync`
  unfoldable pub dispatch : HttpRequest → Dispatched
  unfolding dispatch_redirect
  dispatch request = dispatch_redirect request (find_matching_redirect server.routes request.path)

  -- The hook of the WebSocket module has the events, or leaves the request to the dispatcher.
  unfoldable pub dispatch_upgrade : HttpRequest → Option (List Event) → Dispatched
  unfolding dispatch
  dispatch_upgrade request (some events) = done events
  dispatch_upgrade request none = dispatch request

  -- The answer to a preflight request.
  unfoldable pub preflight : HttpRequest → Option Text → List Event
  unfolding with_cors serialize record_4xx_metric
  preflight request (some origin) =
      sent (serialize (with_cors request true (status_response (codes "204 No Content")))) ∷ []
  preflight request none = record_4xx_metric request ++ sent (serialize response_forbidden) ∷ []

  unfoldable pub is_preflight : HttpRequest → Bool
  is_preflight request =
      text_eq request.method (codes "OPTIONS")
      && server.cors.enabled
      && matches_path server.cors request.path

  -- `handleRequestAsync`, of a request that is not null.
  unfoldable pub handle_request : HttpRequest → Dispatched
  unfolding is_preflight preflight dispatch_upgrade
  handle_request request =
      if is_preflight request
      then done (
          preflight request
            (resolve_origin server.cors (get_header_view request.headers (codes "origin"))))
      else dispatch_upgrade request (env.upgrade request)

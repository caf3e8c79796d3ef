-- ===== src/Dispatch/Routing/Responses.antt =====
-- src/handler/RouteDispatcher.cpp and Handler.cpp: how often a request is answered, and when a
-- handler of the application runs.
use mathlib.Core.Path.{subst}
use geruest.Prelude.{
  ℕ, ◌+◌, ◌≡◌, refl, sym, ap, ◌∙◌, Bool, true, false, not, List, [], ◌∷◌, ◌++◌, Option, none, some,
  Text, if◌then◌else◌, if_elim, has_value, arith,
}
use geruest.Gates.{Handler, find_resolved_route_gate}
use geruest.Http.Request.{HttpRequest}
use geruest.Http.Response.{HttpResponse}
use geruest.Routes.{
  Redirect, find_matching_route, find_matching_async_route, find_matching_redirect,
}
use geruest.Dispatch.{
  ServerData, Outcome, returned, not_allowed, raised, Environment, Event, ran_route, sent,
}
use geruest.Dispatch.Files.{get_extension, get_content_type, build_path}
use geruest.Dispatch.Gating.{
  denial_of, evaluate_resolved_gate, route_gate_denial, check_route_gate_denial,
}
use geruest.Dispatch.Routing.{
  Dispatched, finish_response, answer, record_denial, after_route_gate, try_dispatch_route,
  dispatch_sync, dispatch_file, send_redirect, dispatch_routes, dispatch_redirect, dispatch,
  dispatch_upgrade, preflight, is_preflight, handle_request,
}
use geruest.Dispatch.Routing.Events.{
  answering, running, answers, route_runs, weigh-append, IsLast, record_4xx-IsLast, answer-IsLast,
  record_denial-IsLast, send_file-IsLast,
}

abbrev admits : Option Bool → Bool
admits none = false
admits (some allowed) = allowed

denial_of-admits : (allowed : Option Bool) → has_value (denial_of allowed) ≡ not (admits allowed)
unfolding denial_of
denial_of-admits none = refl
denial_of-admits (some true) = refl
denial_of-admits (some false) = refl

module _ {R A W S G : Type 0} (env : Environment R A S G) (server : ServerData R A W S G) where
  -- A route without a gate, or with one whose answer is `true`.
  abbrev pub gate_allows : HttpRequest → Option (Handler S G) → Bool
  gate_allows request none = true
  gate_allows request (some gate) = admits (evaluate_resolved_gate env server gate request)

  after_route_gate-counts :
      (request : HttpRequest) (awaited : List Event) (outcome : Outcome) (asked : List Event)
      (denial : Option HttpResponse)
      → answers awaited ≡ 0
      → answers asked ≡ 0
      → route_runs asked ≡ 0
      → let events = after_route_gate env server request awaited outcome (asked, denial) in
        (answers events ≡ 1)
        × (route_runs events ≡ (if has_value denial then 0 else route_runs awaited))
  unfolding after_route_gate
  after_route_gate-counts request awaited outcome asked none h k l =
      let last = answer-IsLast env server request outcome in
      (
        omega (
          arith,
          h,
          k,
          last.0,
          weigh-append answering asked (awaited ++ answer env server request outcome),
          weigh-append answering awaited (answer env server request outcome),
        ),
        omega (
          arith,
          l,
          last.1,
          weigh-append running asked (awaited ++ answer env server request outcome),
          weigh-append running awaited (answer env server request outcome),
        ),
      )
  after_route_gate-counts request awaited outcome asked (some denial) h k l =
      let last =
        record_denial-IsLast env server request denial
          (finish_response env server request denial) in
      (
        omega (
          arith,
          k,
          last.0,
          weigh-append answering asked (
              record_denial env server request denial
              ++ sent (finish_response env server request denial) ∷ []),
        ),
        omega (
          arith,
          l,
          last.1,
          weigh-append running asked (
              record_denial env server request denial
              ++ sent (finish_response env server request denial) ∷ []),
        ),
      )

  pub route_gate_denial-counts :
      (request : HttpRequest) (gate : Option (Handler S G))
      → (has_value (route_gate_denial env server request gate).1 ≡ not (gate_allows request gate))
        × (answers (route_gate_denial env server request gate).0 ≡ 0)
        × (route_runs (route_gate_denial env server request gate).0 ≡ 0)
  unfolding route_gate_denial
  route_gate_denial-counts request none = (refl, refl, refl)
  route_gate_denial-counts request (some gate) =
      (denial_of-admits (evaluate_resolved_gate env server gate request), refl, refl)

  try_dispatch_route-counts :
      (request : HttpRequest) (awaited : List Event) (outcome : Outcome)
      → answers awaited ≡ 0
      → let events = try_dispatch_route env server request awaited outcome in
        (answers events ≡ 1)
        × (route_runs events ≡ (
            if gate_allows request (find_resolved_route_gate server.gates request.path)
            then route_runs awaited
            else 0))
  unfolding try_dispatch_route check_route_gate_denial
  try_dispatch_route-counts request awaited outcome h =
      let gate = find_resolved_route_gate server.gates request.path in
      let (denied, k, l) = route_gate_denial-counts request gate in
      let (once, runs) = after_route_gate-counts request awaited outcome _ _ h k l in
      (
        once,
        runs
            ∙ ap (λ b. if b then 0 else route_runs awaited) denied
            ∙ not_if (gate_allows request gate),
      )
    where
      not_if :
          (b : Bool)
          → (if not b then 0 else route_runs awaited) ≡ (if b then route_runs awaited else 0)
      not_if true = refl
      not_if false = refl

  -- Answered once, or left by an exception without an answer.
  IsAnswered : Dispatched → Type 0
  IsAnswered dispatched = answers dispatched.events ≡ (if dispatched.escaped then 0 else 1)

  dispatch_file-answers : (request : HttpRequest) → answers (dispatch_file env server request) ≡ 1
  unfolding dispatch_file
  dispatch_file-answers request =
      let extension = get_extension request.path in
      (send_file-IsLast env server request (get_content_type extension)
        (build_path server.languages server.root env.is_safe_path request extension request.path)).0

  dispatch_routes-IsAnswered :
      (request : HttpRequest) (async_route : Option A) (route : Option R)
      → IsAnswered (dispatch_routes env server request async_route route)
  unfolding dispatch_routes dispatch_sync dispatch_file IsAnswered
  dispatch_routes-IsAnswered request (some handler) route =
      (try_dispatch_route-counts request (ran_route ∷ []) (env.run_async_route handler request)
        refl).0
  dispatch_routes-IsAnswered request none (some handler) =
      by_outcome (env.run_route handler request)
    where
      by_outcome : (outcome : Outcome) → IsAnswered (dispatch_sync env server request outcome)
      by_outcome (returned response) =
          ap (λ n. 0 + n) (try_dispatch_route-counts request [] (returned response) refl).0
      by_outcome (not_allowed allow_methods) = refl
      by_outcome raised = refl
  dispatch_routes-IsAnswered request none none = dispatch_file-answers request

  dispatch_redirect-IsAnswered :
      (request : HttpRequest) (redirect : Option Redirect)
      → IsAnswered (dispatch_redirect env server request redirect)
  unfolding dispatch_redirect send_redirect IsAnswered
  dispatch_redirect-IsAnswered request (some redirect) = refl
  dispatch_redirect-IsAnswered request none = dispatch_routes-IsAnswered request _ _

  preflight-IsLast :
      (request : HttpRequest) (origin : Option Text) → IsLast (preflight env server request origin)
  unfolding preflight
  preflight-IsLast request (some origin) = (refl, refl)
  preflight-IsLast request none = record_4xx-IsLast request _

  -- A request that the WebSocket hook leaves alone is answered exactly once, by bytes that are sent
  -- or by a file that is served, unless an exception leaves the dispatcher: then it is not answered.
  pub answers-handle_request :
      (request : HttpRequest)
      → env.upgrade request ≡ none
      → answers (handle_request env server request).events
        ≡ (if (handle_request env server request).escaped then 0 else 1)
  unfolding handle_request dispatch_upgrade dispatch IsAnswered
  answers-handle_request request h =
      if_elim IsAnswered (is_preflight env server request) _ _ (λ _. (preflight-IsLast request _).0)
        (λ _.
          subst (λ hook. IsAnswered (dispatch_upgrade env server request hook)) (sym h)
            (dispatch_redirect-IsAnswered request _))

  -- The handler of an asynchronous route runs once if the gate of the route allows the request or
  -- the route has no gate, and it does not run if the gate denies it or throws.
  pub dispatch-async_gated :
      (request : HttpRequest) (handler : A)
      → find_matching_redirect server.routes request.path ≡ none
      → find_matching_async_route server.routes request.path ≡ some handler
      → route_runs (dispatch env server request).events ≡ (
          if gate_allows request (find_resolved_route_gate server.gates request.path) then 1 else 0)
  unfolding dispatch dispatch_redirect dispatch_routes
  dispatch-async_gated request handler h k =
      ap (λ redirect. route_runs (dispatch_redirect env server request redirect).events) h
      ∙ ap
          (λ route.
            route_runs
              (dispatch_routes env server request route
                (find_matching_route server.routes request.path)).events)
          k
      ∙ (try_dispatch_route-counts request (ran_route ∷ []) (env.run_async_route handler request)
          refl).1

  -- Whatever the gate of the route answers, the handler of a synchronous route runs once.
  pub dispatch-sync_runs :
      (request : HttpRequest) (handler : R)
      → find_matching_redirect server.routes request.path ≡ none
      → find_matching_async_route server.routes request.path ≡ none
      → find_matching_route server.routes request.path ≡ some handler
      → route_runs (dispatch env server request).events ≡ 1
  unfolding dispatch dispatch_redirect dispatch_routes dispatch_sync
  dispatch-sync_runs request handler h k l =
      ap (λ redirect. route_runs (dispatch_redirect env server request redirect).events) h
      ∙ ap
          (λ route.
            route_runs
              (dispatch_routes env server request route
                (find_matching_route server.routes request.path)).events)
          k
      ∙ ap (λ route. route_runs (dispatch_routes env server request none route).events) l
      ∙ by_outcome (env.run_route handler request)
    where
      zero_if : (b : Bool) → ◌≡◌ {A = ℕ} (if b then 0 else 0) 0
      zero_if true = refl
      zero_if false = refl

      by_outcome :
          (outcome : Outcome) → route_runs (dispatch_sync env server request outcome).events ≡ 1
      by_outcome (returned response) =
          ap (λ n. 1 + n)
            ((try_dispatch_route-counts request [] (returned response) refl).1
              ∙ zero_if (gate_allows request (find_resolved_route_gate server.gates request.path)))
      by_outcome (not_allowed allow_methods) = refl
      by_outcome raised = refl

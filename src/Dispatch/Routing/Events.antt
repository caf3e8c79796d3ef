-- ===== src/Dispatch/Routing/Events.antt =====
-- src/handler/RouteDispatcher.cpp, Handler.cpp and ResponseWriter.cpp: the events that answer a request,
-- and those with which the handlers end it.
use geruest.Prelude.{
  ℕ, ◌+◌, ◌≡◌, refl, ap, ◌∙◌, Bool, true, false, ◌&&◌, ◌||◌, not, List, [], ◌∷◌, ◌++◌, Option, none,
  some, Text, codes, is_empty, get_or, text_eq, ◌==◌, if◌then◌else◌, if_elim, arith,
}
use geruest.Auth.{requires_auth, authenticate}
use geruest.Gates.{ResolvedPageGate}
use geruest.Http.Request.{HttpRequest, get_header}
use geruest.Http.Response.{HttpResponse, serialize}
use geruest.Paths.{canonical_request_path}
use geruest.Dispatch.{
  ServerData, Outcome, returned, not_allowed, raised, Environment, Event, ran_route, ran_gate,
  counted_4xx, counted_5xx, sent, served, is_metrics_excluded_path,
}
use geruest.Dispatch.Gating.{
  record_4xx_metric, record_5xx_metric, response_internal_server_error, PageAccessDenyStyle,
  redirect_style, forbidden_style, after_page_gate, pass_page_gate, enforce_page_access,
}
use geruest.Dispatch.Routing.{
  text_html, text_javascript, text_css, record_status, finish_response, answer, record_denial,
  after_access, is_per_request_page, controlled_owner, send_asset, send_file,
}

-- An event that answers the request.
abbrev pub answering : Event → ℕ
answering ran_route = 0
answering ran_gate = 0
answering counted_4xx = 0
answering counted_5xx = 0
answering (sent bytes) = 1
answering (served per_request content_type path) = 1

-- A call of a route's handler.
abbrev pub running : Event → ℕ
running ran_route = 1
running ran_gate = 0
running counted_4xx = 0
running counted_5xx = 0
running (sent bytes) = 0
running (served per_request content_type path) = 0

abbrev pub weigh : (Event → ℕ) → List Event → ℕ
weigh weight [] = 0
weigh weight (event ∷ events) = weight event + weigh weight events

-- The answers among some events.
abbrev pub answers : List Event → ℕ
answers = weigh answering

-- The calls of route handlers among some events.
abbrev pub route_runs : List Event → ℕ
route_runs = weigh running

pub weigh-append :
    (w : Event → ℕ) (xs ys : List Event) → weigh w (xs ++ ys) ≡ weigh w xs + weigh w ys
weigh-append w [] ys = omega arith
weigh-append w (x ∷ xs) ys = omega (arith, weigh-append w xs ys)

-- The events with which a request is answered last.
abbrev pub IsLast : List Event → Type 0
IsLast events = (answers events ≡ 1) × (route_runs events ≡ 0)

metric_then :
    (request : HttpRequest) (bytes : Text) (event : Event)
    → answering event ≡ 0
    → running event ≡ 0
    → IsLast ((if is_metrics_excluded_path request.path then [] else event ∷ []) ++ sent bytes ∷ [])
metric_then request bytes event silent still =
    if_elim (λ events. IsLast (events ++ sent bytes ∷ [])) (is_metrics_excluded_path request.path) _
      _ (λ _. (refl, refl)) (λ _. (omega (arith, silent), omega (arith, still)))

pub record_4xx-IsLast :
    (request : HttpRequest) (bytes : Text) → IsLast (record_4xx_metric request ++ sent bytes ∷ [])
unfolding record_4xx_metric
record_4xx-IsLast request bytes = metric_then request bytes counted_4xx refl refl

record_5xx-IsLast :
    (request : HttpRequest) (bytes : Text) → IsLast (record_5xx_metric request ++ sent bytes ∷ [])
unfolding record_5xx_metric
record_5xx-IsLast request bytes = metric_then request bytes counted_5xx refl refl

module _ {R A W S G : Type 0} (env : Environment R A S G) (server : ServerData R A W S G) where
  record_status-IsLast :
      (request : HttpRequest) (status bytes : Text)
      → IsLast (record_status env server request status ++ sent bytes ∷ [])
  unfolding record_status
  record_status-IsLast request [] bytes = (refl, refl)
  record_status-IsLast request (c ∷ status) bytes =
      if_elim (λ events. IsLast (events ++ sent bytes ∷ [])) (c == b'4') _ _
        (λ _. record_4xx-IsLast request bytes)
        λ _.
          if_elim (λ events. IsLast (events ++ sent bytes ∷ [])) (c == b'5') _ _
            (λ _. record_5xx-IsLast request bytes) (λ _. (refl, refl))

  pub answer-IsLast :
      (request : HttpRequest) (outcome : Outcome) → IsLast (answer env server request outcome)
  unfolding answer
  answer-IsLast request (returned response) =
      record_status-IsLast request response.status (finish_response env server request response)
  answer-IsLast request (not_allowed allow_methods) = record_4xx-IsLast request _
  answer-IsLast request raised = record_5xx-IsLast request _

  pub record_denial-IsLast :
      (request : HttpRequest) (denial : HttpResponse) (bytes : Text)
      → IsLast (record_denial env server request denial ++ sent bytes ∷ [])
  unfolding record_denial
  record_denial-IsLast request denial bytes =
      if_elim (λ events. IsLast (events ++ sent bytes ∷ []))
        (not (is_empty denial.status) && (get_or denial.status 0 0 == b'5')) _ _
        (λ _. record_5xx-IsLast request bytes) (λ _. record_4xx-IsLast request bytes)

  -- What a check of the access to a page leaves: no answer where it is granted, and one else.
  abbrev IsAccess : List Event × Bool → Type 0
  IsAccess (events, granted) =
      (answers events ≡ (if granted then 0 else 1)) × (route_runs events ≡ 0)

  after_page_gate-IsAccess :
      (request : HttpRequest) (style : PageAccessDenyStyle) (redirect_to : Text)
      (allowed : Option Bool)
      → IsAccess (after_page_gate env server request style redirect_to allowed)
  unfolding after_page_gate
  after_page_gate-IsAccess request style redirect_to none =
      let h = record_5xx-IsLast request (serialize response_internal_server_error) in
      (omega (arith, h.0), omega (arith, h.1))
  after_page_gate-IsAccess request style redirect_to (some true) = (refl, refl)
  after_page_gate-IsAccess request forbidden_style redirect_to (some false) = (refl, refl)
  after_page_gate-IsAccess request redirect_style redirect_to (some false) = (refl, refl)

  pass_page_gate-IsAccess :
      (request : HttpRequest) (style : PageAccessDenyStyle) (gate : Option (ResolvedPageGate S G))
      → IsAccess (pass_page_gate env server request style gate)
  unfolding pass_page_gate
  pass_page_gate-IsAccess request style none = (refl, refl)
  pass_page_gate-IsAccess request style (some gate) = after_page_gate-IsAccess request style _ _

  enforce_page_access-IsAccess :
      (request : HttpRequest) (path : Text) (style : PageAccessDenyStyle)
      (gate : Option (ResolvedPageGate S G))
      → IsAccess (enforce_page_access env server request path style gate)
  unfolding enforce_page_access
  enforce_page_access-IsAccess request path style gate =
      if_elim IsAccess
        (requires_auth (canonical_request_path path) server.basic_auth
          && not (
              authenticate (canonical_request_path path)
                (get_header request (codes "authorization")) server.basic_auth))
        _ _ (λ _. (refl, refl)) (λ _. pass_page_gate-IsAccess request style _)

  after_access-IsLast :
      (access : List Event × Bool) (content_type path : Text)
      → IsAccess access
      → IsLast (after_access env server access content_type path)
  unfolding after_access
  after_access-IsLast (events, false) content_type path h = h
  after_access-IsLast (events, true) content_type path (h, k) = (
    weigh-append answering events _ ∙ ap (λ n. n + 1) h,
    weigh-append running events _ ∙ ap (λ n. n + 0) k,
  )

  send_asset-IsLast :
      (request : HttpRequest) (owner : Option Text) (content_type path : Text)
      → IsLast (send_asset env server request owner content_type path)
  unfolding send_asset
  send_asset-IsLast request none content_type path = (refl, refl)
  send_asset-IsLast request (some owner) content_type path =
      after_access-IsLast _ content_type path
        (enforce_page_access-IsAccess request owner forbidden_style none)

  pub send_file-IsLast :
      (request : HttpRequest) (content_type path : Text)
      → IsLast (send_file env server request content_type path)
  unfolding send_file
  send_file-IsLast request content_type path =
      if_elim IsLast (text_eq content_type text_html) _ _
        (λ _.
          if_elim IsLast (is_per_request_page env server request) _ _
            (λ _.
              after_access-IsLast _ content_type path
                (enforce_page_access-IsAccess request request.path redirect_style _))
            (λ _. (refl, refl)))
        λ _.
          if_elim IsLast (text_eq content_type text_javascript || text_eq content_type text_css) _ _
            (λ _. send_asset-IsLast request (controlled_owner env server request) content_type path)
            (λ _. (refl, refl))

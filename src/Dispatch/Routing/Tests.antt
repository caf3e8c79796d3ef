-- ===== src/Dispatch/Routing/Tests.antt =====
-- Runs of the dispatcher on a small server, and instances of the theorems about it. The handlers of
-- routes are their outcomes, those of gates their answers.
use geruest.Prelude.{◌≡◌, ◌⊎◌, refl, true, false, [], ◌∷◌, none, some, Text, codes, if◌then◌else◌}
use geruest.Prelude.Assoc.{lookup}
use geruest.Prelude.Unique.{member}
use geruest.Auth.{requires_auth, authenticate, has_users, is_page_protected, verify_credentials}
use geruest.Cors.{get_header_view, header_to_lower}
use geruest.Gates.{
  resolve_all, find_best_wildcard_gate, find_resolved_gate_impl, resolve_exact_page_gate,
  find_best_wildcard_page_gate, find_resolved_page_gate, resolve_exact_route_gate,
  find_best_wildcard_route_gate, find_resolved_route_gate,
}
use geruest.Http.Request.{HttpRequest, no_request, get_header, find_header}
use geruest.Http.Response.{build_auth_header}
use geruest.Language.{extract_supported_language_prefix}
use geruest.Paths.{canonical_request_path, pop_slashes, drop_extension}
use geruest.Routes.{
  find_matching_route_impl, find_matching_route, find_matching_async_route, find_redirect_at,
  find_matching_wildcard_redirect, consider_redirects, find_matching_redirect,
}
use geruest.Routes.Best.{consider, consider_all, find_best_wildcard}
use geruest.Dispatch.Sample.{home, languages, routes, gates, server, env}
use geruest.Dispatch.{returned, ran_route, sent, served}
use geruest.Dispatch.Files.{
  get_extension, get_content_type, html_mount, mount_of, below_root, mounted, assemble, index_page,
  build_path,
}
use geruest.Dispatch.Files.Traversal.{IsConfined, build_path_confined}
use geruest.Dispatch.Gating.{
  evaluate_resolved_gate, denial_of, route_gate_denial, check_route_gate_denial, gate_of,
  pass_page_gate, enforce_page_access,
}
use geruest.Dispatch.Routing.{
  done, text_html, after_access, is_per_request_page, send_file, dispatch_file, dispatch_sync,
  dispatch_routes, dispatch_redirect, dispatch, after_route_gate, try_dispatch_route, is_preflight,
  preflight, dispatch_upgrade, handle_request,
}
use geruest.Dispatch.Routing.Protection.{send_file-denies, send_file-html_spelling}
use geruest.Dispatch.Routing.Responses.{
  gate_allows, answers-handle_request, dispatch-async_gated, dispatch-sync_runs,
}
use geruest.Dispatch.Routing.Events.{answers, route_runs}

dispatching : Unit {0}
unfolding lookup member requires_auth authenticate has_users is_page_protected verify_credentials
    get_header find_header get_header_view header_to_lower find_resolved_gate_impl
    resolve_exact_page_gate find_best_wildcard_page_gate find_resolved_page_gate
    resolve_exact_route_gate find_best_wildcard_route_gate find_resolved_route_gate
    find_best_wildcard_gate resolve_all consider consider_all find_best_wildcard
    canonical_request_path pop_slashes drop_extension find_matching_route_impl find_matching_route
    find_matching_async_route find_redirect_at find_matching_wildcard_redirect consider_redirects
    find_matching_redirect extract_supported_language_prefix get_extension get_content_type
    html_mount mount_of below_root mounted assemble build_path evaluate_resolved_gate denial_of
    route_gate_denial check_route_gate_denial gate_of pass_page_gate enforce_page_access
    after_access is_per_request_page send_file dispatch_file dispatch_sync dispatch_routes
    dispatch_redirect dispatch after_route_gate try_dispatch_route is_preflight preflight
    dispatch_upgrade handle_request
dispatching = tt

abbrev get : Text → HttpRequest
get path = record no_request { method = codes "GET"; path = path }

dispatch_tests :
    (handle_request env server (get (codes "/admin")) ≡ done (sent build_auth_header ∷ []))
    × (handle_request env server (get (codes "/admin.html"))
        ≡ done (served false text_html (codes "/srv/html/admin.html") ∷ []))
    × (handle_request env server (get (codes "/open"))
        ≡ done (served false text_html (codes "/srv/html/open.html") ∷ []))
    × (handle_request env server (get (codes "/a~.css"))
        ≡ done (served false (codes "text/css") [] ∷ []))
    × (handle_request env server (get (codes "/bad"))
        ≡ record { events = ran_route ∷ []; escaped = true })
unfolding dispatching
dispatch_tests = (refl, refl, refl, refl, refl)

lookup_tests :
    (find_matching_redirect routes (codes "/async") ≡ none)
    × (find_matching_async_route routes (codes "/async") ≡ some (returned home))
    × (find_matching_redirect routes (codes "/sync") ≡ none)
    × (find_matching_async_route routes (codes "/sync") ≡ none)
    × (find_matching_route routes (codes "/sync") ≡ some (returned home))
unfolding dispatching
lookup_tests = (refl, refl, refl, refl, refl)

access_tests :
    (is_per_request_page env server (get (codes "/admin")) ≡ true)
    × (authenticate
          (canonical_request_path (codes "/admin"))
          (get_header (get (codes "/admin")) (codes "authorization"))
          server.basic_auth
        ≡ false)
    × (is_page_protected (codes "/admin.html") server.basic_auth ≡ false)
    × (find_resolved_page_gate gates (codes "/admin.html") ≡ none)
unfolding dispatching
access_tests = (refl, refl, refl, refl)

answers-handle_request_example :
    answers (handle_request env server (get (codes "/bad"))).events
    ≡ (if (handle_request env server (get (codes "/bad"))).escaped then 0 else 1)
answers-handle_request_example = answers-handle_request env server (get (codes "/bad")) refl

dispatch-async_gated_example : route_runs (dispatch env server (get (codes "/async"))).events ≡ (
    if gate_allows env server
      (get (codes "/async"))
      (find_resolved_route_gate gates (codes "/async"))
    then 1
    else 0)
dispatch-async_gated_example =
    dispatch-async_gated env server (get (codes "/async")) (returned home) lookup_tests.0
      lookup_tests.1

dispatch-sync_runs_example : route_runs (dispatch env server (get (codes "/sync"))).events ≡ 1
dispatch-sync_runs_example =
    dispatch-sync_runs env server (get (codes "/sync")) (returned home) lookup_tests.2
      lookup_tests.3 lookup_tests.4

send_file-denies_example :
    send_file env server (get (codes "/admin")) text_html (codes "/srv/html/admin.html")
    ≡ sent build_auth_header ∷ []
send_file-denies_example =
    send_file-denies env server (get (codes "/admin")) (codes "/srv/html/admin.html") access_tests.0
      access_tests.1

send_file-html_spelling_example :
    (canonical_request_path (codes "/admin.html") ≡ codes "/admin")
    × (send_file env server (get (codes "/admin.html")) text_html (codes "/srv/html/admin.html")
        ≡ served false text_html (codes "/srv/html/admin.html") ∷ [])
send_file-html_spelling_example =
    send_file-html_spelling env server (get (codes "/admin.html")) (codes "/admin")
      (codes "/srv/html/admin.html") (λ e. cc) refl access_tests.2 access_tests.3

build_path_confined_example :
    (build_path languages
        (codes "/srv")
        env.is_safe_path
        (get (codes "/a.css"))
        (codes "css")
        (codes "/a.css")
      ≡ index_page languages (codes "/srv") env.is_safe_path (get (codes "/a.css")))
    ⊎ IsConfined languages (codes "/srv") env.is_safe_path (
        build_path languages
          (codes "/srv")
          env.is_safe_path
          (get (codes "/a.css"))
          (codes "css")
          (codes "/a.css"))
build_path_confined_example =
    build_path_confined languages (codes "/srv") env.is_safe_path (get (codes "/a.css"))
      (codes "css") (codes "/a.css")

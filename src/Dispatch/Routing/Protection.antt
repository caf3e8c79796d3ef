-- ===== src/Dispatch/Routing/Protection.antt =====
-- src/handler/ResponseWriter.cpp: which pages Basic authentication protects.
use geruest.Prelude.{
  ◌≡◌, ◌≢◌, ◌∙◌, ap, true, false, ◌&&◌, ◌||◌, not, [], ◌∷◌, ◌++◌, none, Text, codes, has_value,
  if◌then◌else◌, arith,
}
use geruest.Auth.{is_page_protected, requires_auth, authenticate}
use geruest.Gates.{ResolvedPageGate, find_resolved_page_gate}
use geruest.Http.Request.{HttpRequest, get_header}
use geruest.Http.Response.{build_auth_header}
use geruest.Paths.{canonical_request_path}
use geruest.Paths.Canonical.{canonical-append_html}
use geruest.Dispatch.{ServerData, Environment, sent, served}
use geruest.Dispatch.Gating.{redirect_style, gate_of, pass_page_gate, enforce_page_access}
use geruest.Dispatch.Routing.{text_html, is_per_request_page, after_access, send_file}

module _ {R A W S G : Type 0} (env : Environment R A S G) (server : ServerData R A W S G) where
  -- A page whose path, as it is requested, is protected or has a gate, and whose canonical path needs
  -- credentials that the request does not give, is answered with 401 and nothing else: no gate is
  -- asked and no file is served.
  pub send_file-denies :
      (request : HttpRequest) (content_path : Text)
      → is_per_request_page env server request ≡ true
      → authenticate
          (canonical_request_path request.path)
          (get_header request (codes "authorization"))
          server.basic_auth
        ≡ false
      → send_file env server request text_html content_path ≡ sent build_auth_header ∷ []
  unfolding send_file enforce_page_access after_access authenticate
  send_file-denies request content_path h k =
      let denied : (requires_auth (canonical_request_path request.path) server.basic_auth
            && not (
                authenticate (canonical_request_path request.path)
                  (get_header request (codes "authorization")) server.basic_auth))
          ≡ true =
        ground (arith, k) in
      let access =
        enforce_page_access env server request request.path redirect_style
          (find_resolved_page_gate server.gates request.path) in
      ap
        (λ per_request.
          if per_request
          then after_access env server access text_html content_path
          else served false text_html content_path ∷ [])
        h
      ∙ ap (λ outcome. after_access env server outcome text_html content_path)
          (ap
            (λ b.
              if b
              then (sent build_auth_header ∷ [], false)
              else pass_page_gate env server request redirect_style (
                  gate_of env server request.path
                    (find_resolved_page_gate server.gates request.path)))
            denied)

  -- The page of `path` is served without credentials and from the cache when it is requested by its
  -- path with `.html`, if that spelling is not itself protected and the page has no gate.
  pub send_file-html_spelling :
      (request : HttpRequest) (path content_path : Text)
      → path ≢ []
      → request.path ≡ path ++ codes ".html"
      → is_page_protected request.path server.basic_auth ≡ false
      → find_resolved_page_gate server.gates request.path ≡ none
      → (canonical_request_path request.path ≡ path)
        × (send_file env server request text_html content_path
            ≡ served false text_html content_path ∷ [])
  unfolding send_file is_per_request_page requires_auth
  send_file-html_spelling request path content_path h k l m =
      let free : (requires_auth request.path server.basic_auth
            || has_value {A = ResolvedPageGate S G} none)
          ≡ false =
        ground (arith, l) in
      (
        ap canonical_request_path k ∙ canonical-append_html path h,
        ap
            (λ b.
              if b
              then after_access env server
                  (enforce_page_access env server request request.path redirect_style
                    (find_resolved_page_gate server.gates request.path))
                  text_html content_path
              else served false text_html content_path ∷ [])
            (ap (λ gate. requires_auth request.path server.basic_auth || has_value gate) m ∙ free),
      )

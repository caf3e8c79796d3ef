-- ===== src/Dispatch/Session/Tests.antt =====
-- An instance of the theorem about the loop over the requests of a connection.
use geruest.Prelude.{◌+◌, ◌≤◌, List, [], ◌∷◌, Option, some, codes, length, arith}
use geruest.Http.Request.{HttpRequest, no_request}
use geruest.Dispatch.Sample.{server, env}
use geruest.Dispatch.Session.{run}
use geruest.Dispatch.Session.Limits.{AllButLast, run-IsWithin}

abbrev get : HttpRequest
get = record no_request {
  method = codes "GET";
  path = codes "/open";
  raw_request_line = codes "GET /open HTTP/1.1";
}

abbrev three_requests : List (Option HttpRequest)
three_requests = some get ∷ some get ∷ some get ∷ []

run-IsWithin_example :
    (length (run env server 2 0 three_requests).handled + 0 ≤ 2)
    × AllButLast env server (run env server 2 0 three_requests).handled
run-IsWithin_example =
    run-IsWithin env server 2 0 three_requests (λ e. omega (arith, e)) (omega arith) (omega arith)

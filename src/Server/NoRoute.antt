-- ===== src/Server/NoRoute.antt =====
-- internal/server/noroute_handler.go: a request to a path that is no part of the API goes to the mock
-- endpoint that is stored under it.
pub mod Answers
pub mod Safety
pub mod Scripts
use mock_server.Prelude.{
  String, Bool, true, false, ◌||◌, Option, none, some, List, [], ◌∷◌, ◌==◌, if◌then◌else◌,
}
use mock_server.Errors.{Error, no_such_path, code_run_failed, Result, ok, err}
use mock_server.Util.Text.{◌^◌}
use mock_server.Database.Documents.{
  Route, static_endpoint_type, proxy_endpoint_type, dynamic_endpoint_type,
}
use mock_server.Database.Driver.{Collection, Cache}
use mock_server.Database.Store.{Store}
use mock_server.Database.Routes
use mock_server.Coderun.RunScript.{ScriptWorkers, new_dyn_handle_args}
use mock_server.Server.Http.{
  Body, text, error_text, error_of, Response, reply, status_ok, status_bad_request,
  status_internal_server_error,
}

-- What the handler reads of a request. `body` is what reading it to the end gives, and `header` its
-- JSON text.
pub record Request : Type 0 where
  pub method : String
  pub request_uri : String
  pub raw_query : String
  pub header : Result String
  pub body : Result String

-- net/url: a parsed URL.
pub record Url : Type 0 where
  pub host : String
  pub path : String
  pub raw_query : String

-- The request that the reverse proxy sends.
pub record Forwarded : Type 0 where
  pub method : String
  pub header : Result String
  pub host : String
  pub url : Url
  pub request_uri : String
  pub body : Result String

-- The functions of net/url that are used, and DumpRequest of net/http/httputil, which is called only
-- if the log level is debug.
pub record Urls : Type 0 where
  pub parse_request_uri : String → Result Url
  pub request_uri : Url → String
  pub debug : Bool
  pub dump_request : Forwarded → Option Error

-- What becomes of a request: what is handed to `c.JSON` and, for a proxy endpoint, the request that is
-- sent on. `exits` is `zlog.Fatal`, which ends the process.
pub data Outcome : Type 0 where
  responds : Response → Outcome
  proxies : Forwarded → List Response → Outcome
  exits : Outcome

unfoldable pub handle_static_route_request : Route → Outcome
handle_static_route_request route = responds (reply status_ok (text route.response))

-- `req.URL` is `target`, so the query that is set on the one is set on the other.
unfoldable pub merge_query : String → String → String
merge_query query target_query =
    if query == "" || target_query == "" then query ^ target_query else query ^ "&" ^ target_query

dump_replies : Urls → Forwarded → List Response
dump_replies urls req =
    if urls.debug
    then elim (urls.dump_request req) [
      | some e ↦ reply status_bad_request (error_of e) ∷ []
      | none ↦ []
    ]
    else []

-- What the Director hands to `c.JSON`: an error of the copying of the body ends it, and only a
-- request other than GET and HEAD has its body copied.
director_replies : Urls → Forwarded → List Response
unfolding dump_replies
director_replies urls req =
    if req.method == "GET" || req.method == "HEAD" then dump_replies urls req else elim req.body [
      | err e ↦ reply status_bad_request (error_of e) ∷ []
      | ok body ↦ dump_replies urls req
    ]

-- The Director. Whatever it answers, the proxy goes on.
unfoldable pub director : Urls → Request → Url → Outcome
unfolding merge_query director_replies
director urls req target =
    let url : Url = record target { raw_query = merge_query req.raw_query target.raw_query } in
    let sent : Forwarded = record {
      method = req.method;
      header = req.header;
      host = target.host;
      url = url;
      request_uri = urls.request_uri url;
      body = req.body;
    } in
    proxies sent (director_replies urls sent)

forward : Urls → Request → Result Url → Outcome
forward urls req (ok target) = director urls req target
forward urls req (err e) = exits

unfoldable pub handle_proxy_route_request : Urls → Request → Route → Outcome
unfolding forward
handle_proxy_route_request urls req route =
    forward urls req (urls.parse_request_uri route.proxy_url)

module _ (W : ScriptWorkers) where
  unfoldable pub run_reply : String → Option Error → Outcome
  run_reply output none = responds (reply status_ok (text output))
  run_reply output (some code_run_failed) = responds (reply status_bad_request (error_text output))
  run_reply output (some e) = responds (reply status_internal_server_error (error_text output))

  run_with_body : W.Worker → Route → String → Result String → W.State → W.State × Outcome
  unfolding run_reply
  run_with_body w route header (err e) s = (s, responds (reply status_bad_request (error_of e)))
  run_with_body w route header (ok body) s =
      let (s', output, e) =
        W.run_script w "dyn_handle" route.script_name (new_dyn_handle_args header body) s in
      (s', run_reply output e)

  run_with_header : W.Worker → Route → Result String → Result String → W.State → W.State × Outcome
  unfolding run_with_body
  run_with_header w route (err e) body s = (s, responds (reply status_bad_request (error_of e)))
  run_with_header w route (ok header) body s = run_with_body w route header body s

  -- `defer worker.Return()`
  returning : W.Worker → W.State × Outcome → W.State × Outcome
  returning w (s, outcome) = (W.return_worker w s, outcome)

  run_borrowed : Request → Route → W.State × Result W.Worker → W.State × Outcome
  unfolding run_with_header returning
  run_borrowed req route (s, err e) =
      (s, responds (reply status_internal_server_error (error_of e)))
  run_borrowed req route (s, ok w) = returning w (run_with_header w route req.header req.body s)

  unfoldable pub handle_dynamic_route_request : Request → Route → W.State → W.State × Outcome
  unfolding run_borrowed
  handle_dynamic_route_request req route s = run_borrowed req route (W.borrow_worker s)

  -- The `switch route.Type`.
  unfoldable pub handle_route : Urls → Request → Route → W.State → W.State × Outcome
  handle_route urls req route s =
      if route.kind == static_endpoint_type
      then (s, handle_static_route_request route)
      else if route.kind == proxy_endpoint_type
      then (s, handle_proxy_route_request urls req route)
      else if route.kind == dynamic_endpoint_type
      then handle_dynamic_route_request req route s
      else (s, exits)

  found_route : Urls → Request → Result Route → W.State → W.State × Outcome
  unfolding handle_route
  found_route urls req (err no_such_path) s =
      (s, responds (reply status_bad_request (error_text ("no such path: " ^ req.request_uri))))
  found_route urls req (err e) s = (s, responds (reply status_internal_server_error (error_of e)))
  found_route urls req (ok route) s = handle_route urls req route s

  module _ (C : Collection) (K : Cache Route) where
    unfoldable pub no_route : Urls → Request → Store C K → W.State → Store C K × W.State × Outcome
    unfolding found_route
    no_route urls req s w =
        let (s', r) = Routes.get_route C K req.request_uri s in
        let (w', outcome) = found_route urls req r w in (s', w', outcome)

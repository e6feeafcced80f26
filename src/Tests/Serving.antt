-- ===== src/Tests/Serving.antt =====
-- internal/server over the stores of Tests/Endpoints.antt, with a worker that always answers.
use mock_server.Server.NoRoute.Safety.{no_route_answers}
use mock_server.Prelude.{◌≢◌, refl, String, false, none}
use mock_server.Errors.{ok}
use mock_server.Server.Http.{StaticEndpoint}
use mock_server.Coderun.RunScript.{ScriptWorkers}
use mock_server.Server.NoRoute.{Request, Urls, exits, no_route}
use mock_server.Tests.Mongo.{mongo, mongo_laws, gcache, gcache_laws}
use mock_server.Tests.Endpoints.{some_routes, some_routes-IsValid}

abbrev pub workers : ScriptWorkers
workers = record {
  State = Unit;
  Worker = Unit;
  borrow_worker = λ s. (s, ok tt);
  return_worker = λ w s. s;
  run_script = λ w run_type script args s. (s, "1", none);
}

abbrev pub urls : Urls
urls = record {
  parse_request_uri = λ t. ok (record { host = t; path = ""; raw_query = "" });
  request_uri = λ u. u.path;
  debug = false;
  dump_request = λ req. none;
}

abbrev pub get_of : String → Request
get_of path = record {
  method = "GET";
  request_uri = path;
  raw_query = "";
  header = ok "";
  body = ok "";
}

abbrev pub endpoint : String → String → StaticEndpoint
endpoint path response = record { path = path; expected_response = response }

no_route_answers_example :
    (no_route workers mongo gcache urls (get_of "/p") some_routes tt).2 ≢ exits
no_route_answers_example =
    no_route_answers mongo_laws gcache_laws workers urls (get_of "/p") some_routes tt
      some_routes-IsValid
      (λ r now kind. (record { host = r.proxy_url; path = ""; raw_query = "" }, refl))

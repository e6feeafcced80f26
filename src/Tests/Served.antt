-- ===== src/Tests/Served.antt =====
-- internal/server as a whole over the stores of Tests/Mongo.antt: a gin that never redirects, and requests.
use mock_server.Prelude.{
  ◌≡◌, ◌≢◌, ◌↔◌, refl, inl, inr, subst, false, String, List, [], ◌∷◌, Option, none, some, ◌==◌,
  if◌then◌else◌, arith, eq_iff,
}
use mock_server.Errors.{ok, err, failed}
use mock_server.Database.Documents.{EsbRecord, MessagePool}
use mock_server.Database.Store.Coherence.{stored}
use mock_server.Brokers.Registry.{Clients}
use mock_server.Server.Http.{Response, reply, text, status_ok, status_no_content}
use mock_server.Server.Router.{Handler, ping, find_handler, init_main_routes}
use mock_server.Server.Router.Selection.{endpoint_of, find_handler-eq-some_iff}
use mock_server.Server.NoRoute.{Outcome, responds, no_route}
use mock_server.Server.StaticRoutes
use mock_server.Server.Gin.{HttpRequest, Selection, handled, unmatched, answered, Gin, GinLaws}
use mock_server.Server.Serve.{
  Externals, State, responses, mocked, selected, run_handler, serve, serve_all,
}
use mock_server.Server.Serve.Caches.{
  ExternalsLaws, IsValidState, HasNoFailedChange, serve_all-IsValidState,
}
use mock_server.Server.Serve.Settled.{IsChange, HasNoFailure}
use mock_server.Server.Serve.Invariants.{serve_answers}
use mock_server.Server.Serve.Mocks.{serve-post_static}
use mock_server.Tests.Mongo.{
  mongo, mongo_laws, gcache, gcache_laws, keyed, keyed_laws, caching, caching_laws,
}
use mock_server.Tests.Endpoints.{some_routes, some_routes-IsValid, run}
use mock_server.Tests.Serving.{workers, urls, get_of, endpoint}
use mock_server.Tests.Uploads.{files}
use mock_server.Tests.Pools.{codec}

abbrev no_clients : Clients
no_clients = record {
  State = Unit;
  kafka_connection = err (failed "down");
  new_admin_client = λ a s. none;
  create_topics = λ a t s. (s, none);
  delete_topics = λ a t s. (s, none);
  rabbitmq_connection = err (failed "down");
  dial = λ a s. none;
  channel = λ a s. none;
  queue_delete = λ a q s. (s, none);
}

abbrev externals : Externals
externals = record {
  routes_coll = mongo;
  routes_cache = gcache;
  esb_coll = keyed "pool_name_in";
  esb_cache = caching EsbRecord;
  pools_coll = keyed "name";
  pools_cache = caching MessagePool;
  messages_coll = keyed "id";
  codec = codec;
  clients = no_clients;
  files = files;
  workers = workers;
  urls = urls;
}

unfoldable externals_laws : ExternalsLaws externals
unfolding keyed_laws caching_laws
externals_laws = record {
  routes = mongo_laws;
  routes_cache = gcache_laws;
  esb = keyed_laws "pool_name_in";
  esb_cache = caching_laws EsbRecord;
  pools = keyed_laws "name";
  pools_cache = caching_laws MessagePool;
}

abbrev found_handler : Option Handler → Selection
found_handler none = unmatched
found_handler (some h) = handled h

-- Requests from another origin are answered by the middleware.
abbrev gin : Gin
gin = record {
  select = λ es req.
      if req.origin == ""
      then found_handler (find_handler es req.raw.method req.path)
      else answered (reply 403 (text ""));
}

gin_laws : GinLaws gin
gin_laws = record {
  handled_registered = λ es req h d e. ground arith;
  unmatched_unregistered = λ es req d e. ground arith;
  registered = λ es req h d o e. ground (arith, eq_iff req.origin "");
  unregistered = λ es req d o e slash less. ground (arith, eq_iff req.origin "");
}

abbrev request : String → String → HttpRequest
request method path = record {
  raw = record (get_of path) { method = method };
  path = path;
  origin = "";
  query = λ name. "";
  static_endpoint = err (failed "EOF");
  proxy_endpoint = err (failed "EOF");
  dynamic_endpoint = err (failed "EOF");
  message_pool = err (failed "EOF");
  esb_record = err (failed "EOF");
  broker_task = err (failed "EOF");
  stamp = "20230501120000";
}

abbrev post_b : HttpRequest
post_b = record (request "POST" "/api/routes/static") {
  static_endpoint = ok (endpoint "/b" "hello");
}

abbrev put_a : HttpRequest
put_a = record (request "PUT" "/api/routes/static") { static_endpoint = ok (endpoint "/a" "two") }

abbrev start : State externals
start = record {
  routes = some_routes;
  esb_records = record { coll = λ _. none; cache = λ _. none };
  brokers = record {
    registry = record { pools = record { coll = λ _. none; cache = λ _. none }; brokers = tt };
    task_messages = λ _. none;
    scheduled = [];
  };
  fs = λ folder name. none;
  workers = tt;
}

start-IsValidState : IsValidState externals_laws start
unfolding externals_laws stored
start-IsValidState = record {
  routes = some_routes-IsValid;
  esb_records = λ k v h. cc;
  pools = λ k v h. cc;
}

serve_answers_example :
    ((o : Outcome)
      → (serve externals gin (request "GET" "/b") start).1 ≡ mocked o
      → (h : Handler) → endpoint_of h ≢ ("GET", "/b"))
    × ((rs : List Response)
        → (serve externals gin (request "GET" "/b") start).1 ≡ responses rs
        → (h : Handler) × (endpoint_of h ≡ ("GET", "/b"))
          × ((run_handler externals h (request "GET" "/b") start).1 ≡ rs))
serve_answers_example = serve_answers gin_laws (request "GET" "/b") start

find_handler-eq-some_iff_example :
    (find_handler init_main_routes "GET" "/api/ping" ≡ some ping)
    ↔ (endpoint_of ping ≡ ("GET", "/api/ping"))
find_handler-eq-some_iff_example = find_handler-eq-some_iff "GET" "/api/ping" ping

apart : (s t : String) → (s == t) ≡ false → some s ≢ some t
apart s t h e = ground (arith, eq_iff s t)

-- What the server unfolds on a request to the static endpoints.
serving : Unit {0}
unfolding externals_laws run serve serve_all selected run_handler init_main_routes
    StaticRoutes.post_static StaticRoutes.put_static no_route
serving = tt

not-IsChange : (m : String) → (m == "PUT") ≡ false → (m == "DELETE") ≡ false → ¬ IsChange m
not-IsChange m p d (inl e) = ground (arith, eq_iff m "PUT")
not-IsChange m p d (inr e) = ground (arith, eq_iff m "DELETE")

fine_of :
    (rs rs' : List Response) → HasNoFailure rs → responses rs ≡ responses rs' → HasNoFailure rs'
fine_of rs rs' f h = let same : rs ≡ rs' = cc in subst HasNoFailure same f

abbrev updated : List Response
updated = reply status_no_content (text "Static endpoint successfully updated!") ∷ []

updated_fine : HasNoFailure updated
updated_fine = ((λ e. omega arith), tt)

put_a_fine : HasNoFailedChange externals_laws gin (post_b ∷ put_a ∷ request "GET" "/b" ∷ []) start
unfolding serving
put_a_fine = (
  λ change. absurd (not-IsChange "POST" refl refl change),
  (
    λ change rs h. fine_of updated rs updated_fine h,
    (λ change. absurd (not-IsChange "GET" refl refl change), tt),
  ),
)

serve_all-IsValidState_example :
    IsValidState externals_laws
      (serve_all externals gin (post_b ∷ put_a ∷ request "GET" "/b" ∷ []) start)
serve_all-IsValidState_example =
    serve_all-IsValidState externals_laws gin_laws (post_b ∷ put_a ∷ request "GET" "/b" ∷ []) start
      ((λ e. cc), ((λ e. cc), ((λ e. cc), tt))) put_a_fine start-IsValidState

serve-post_static_example :
    (serve externals gin (request "GET" "/b") (
      serve_all externals gin
        (put_a ∷ request "GET" "/a" ∷ [])
        (serve externals gin post_b start).0)).1
    ≡ mocked (responds (reply status_ok (text "hello")))
unfolding serving
serve-post_static_example =
    serve-post_static externals_laws.routes externals_laws.routes_cache gin_laws
      (endpoint "/b" "hello") post_b (request "GET" "/b") (put_a ∷ request "GET" "/a" ∷ []) start
      start-IsValidState.routes refl refl refl refl (apart "/a" "/b" refl, ((λ e. cc), tt)) tt refl
      refl

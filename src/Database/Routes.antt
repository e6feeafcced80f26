-- ===== src/Database/Routes.antt =====
-- internal/database/routes.go, and the functions of internal/database/mongo.go over it.
pub mod Update
pub mod Calls
pub mod Proxy
use mock_server.Prelude.{
  ℕ, zero, suc, ◌≡◌, ◌≢◌, String, Bool, true, false, List, [], ◌∷◌, Option, none, some, ◌==◌,
  if◌then◌else◌, map,
}
use mock_server.Errors.{
  DriverError, no_documents, duplicate_write, failure, Error, no_such_path, bad_route_type, driver,
  panicked, Result, ok, err,
}
use mock_server.Database.Documents.{
  Doc, Route, encode_route, decode_route, static_endpoint_type, proxy_endpoint_type,
  dynamic_endpoint_type,
}
use mock_server.Database.Driver.{Collection, Cache}
use mock_server.Database.Store.{Schema, Store, run_with_lock, error_of, add, get}

abbrev pub route_schema : Schema Route
route_schema = record {
  key = "path";
  id = λ r. r.path;
  encode = encode_route;
  decode = decode_route;
  missing = no_such_path;
}

abbrev pub static_route : String → String → Route
static_route path response = record {
  path = path;
  kind = static_endpoint_type;
  script_name = "";
  response = response;
  proxy_url = "";
}

abbrev pub proxy_route : String → String → Route
proxy_route path url = record {
  path = path;
  kind = proxy_endpoint_type;
  script_name = "";
  response = "";
  proxy_url = url;
}

abbrev pub dynamic_route : String → String → Route
dynamic_route path script = record {
  path = path;
  kind = dynamic_endpoint_type;
  script_name = script;
  response = "";
  proxy_url = "";
}

-- The tail of the three getters: the type is checked, then one field is returned.
abbrev pub field_of_type : String → (Route → String) → Result Route → Result String
field_of_type t get_field (err e) = err e
field_of_type t get_field (ok route) =
    if route.kind == t then ok (get_field route) else err bad_route_type

module _ (C : Collection) (K : Cache Route) where
  unfoldable pub add_route : Route → Store C K → Store C K × Option Error
  add_route route s = add C K route_schema route s

  removed : String → Store C K → C.State → Option DriverError → Store C K × Option Error
  removed path s coll none = (record { coll = coll; cache = K.remove path s.cache }, none)
  removed path s coll (some e) = (record s { coll = coll }, some (driver e))

  -- The filter names the path alone, so the route goes whatever its type is.
  unfoldable pub remove_route : String → Store C K → Store C K × Option Error
  unfolding removed
  remove_route path s =
      run_with_lock (let (coll, e) = C.delete_one "path" path s.coll in removed path s coll e)

  -- The tests behind `UpdateOne`; `none` for the count is a nil `res`, whose field is then read.
  updated : Route → Store C K → C.State → Option ℕ → Option DriverError → Store C K × Option Error
  updated route s coll count (some no_documents) = (record s { coll = coll }, some no_such_path)
  updated route s coll none e = (record s { coll = coll }, some panicked)
  updated route s coll (some zero) e = (record s { coll = coll }, some no_such_path)
  updated route s coll (some (suc n)) (some e) = (record s { coll = coll }, some (driver e))
  updated route s coll (some (suc n)) none =
      let (cache, e) = K.set route.path route s.cache in
      (record { coll = coll; cache = cache }, error_of e)

  -- `$set` names the response and the script name, and not the proxy URL.
  unfoldable pub update_route : Route → Store C K → Store C K × Option Error
  unfolding updated
  update_route route s = run_with_lock (
      let (coll, count, e) =
        C.update_one (("path", route.path) ∷ ("type", route.kind) ∷ [])
          (("response", route.response) ∷ ("script_name", route.script_name) ∷ []) s.coll in
      updated route s coll count e)

  unfoldable pub get_route : String → Store C K → Store C K × Result Route
  get_route path s = get C K route_schema path s

  listed_paths : List Doc → Option DriverError → Result (List String)
  listed_paths ds none = ok (map (λ d. (decode_route d).path) ds)
  listed_paths ds (some e) = err (driver e)

  unfoldable pub list_all_routes_paths_with_type : String → Store C K → Result (List String)
  unfolding listed_paths
  list_all_routes_paths_with_type t s =
      run_with_lock
        (let (ds, e) = C.find (("type", t) ∷ []) "timestamp" s.coll in listed_paths ds e)

  -- mongo.go

  unfoldable pub add_static_endpoint : String → String → Store C K → Store C K × Option Error
  add_static_endpoint path response = add_route (static_route path response)

  unfoldable pub remove_static_endpoint : String → Store C K → Store C K × Option Error
  remove_static_endpoint path = remove_route path

  unfoldable pub update_static_endpoint : String → String → Store C K → Store C K × Option Error
  update_static_endpoint path response = update_route (static_route path response)

  unfoldable pub get_static_endpoint_response : String → Store C K → Store C K × Result String
  get_static_endpoint_response path s =
      let (s', r) = get_route path s in
      (s', field_of_type static_endpoint_type (λ route. route.response) r)

  unfoldable pub list_all_static_endpoint_paths : Store C K → Result (List String)
  list_all_static_endpoint_paths = list_all_routes_paths_with_type static_endpoint_type

  unfoldable pub add_proxy_endpoint : String → String → Store C K → Store C K × Option Error
  add_proxy_endpoint path url = add_route (proxy_route path url)

  unfoldable pub remove_proxy_endpoint : String → Store C K → Store C K × Option Error
  remove_proxy_endpoint path = remove_route path

  unfoldable pub update_proxy_endpoint : String → String → Store C K → Store C K × Option Error
  update_proxy_endpoint path url = update_route (proxy_route path url)

  unfoldable pub get_proxy_endpoint_proxy_url : String → Store C K → Store C K × Result String
  get_proxy_endpoint_proxy_url path s =
      let (s', r) = get_route path s in
      (s', field_of_type proxy_endpoint_type (λ route. route.proxy_url) r)

  unfoldable pub list_all_proxy_endpoint_paths : Store C K → Result (List String)
  list_all_proxy_endpoint_paths = list_all_routes_paths_with_type proxy_endpoint_type

  unfoldable pub add_dynamic_endpoint : String → String → Store C K → Store C K × Option Error
  add_dynamic_endpoint path script = add_route (dynamic_route path script)

  unfoldable pub remove_dynamic_endpoint : String → Store C K → Store C K × Option Error
  remove_dynamic_endpoint path = remove_route path

  unfoldable pub update_dynamic_endpoint : String → String → Store C K → Store C K × Option Error
  update_dynamic_endpoint path script = update_route (dynamic_route path script)

  unfoldable pub get_dynamic_endpoint_script_name : String → Store C K → Store C K × Result String
  get_dynamic_endpoint_script_name path s =
      let (s', r) = get_route path s in
      (s', field_of_type dynamic_endpoint_type (λ route. route.script_name) r)

  unfoldable pub list_all_dynamic_endpoint_paths : Store C K → Result (List String)
  list_all_dynamic_endpoint_paths = list_all_routes_paths_with_type dynamic_endpoint_type

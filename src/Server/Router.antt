-- ===== src/Server/Router.antt =====
-- internal/server/server.go, initMainRoutes, and the registrations of the *_api.go files: which handler
-- a method and a path have.
-- gin joins the path of a group and a relative path by one slash; the paths are written as it joins them.
-- How gin selects a handler is a parameter of the modules that serve requests.
pub mod Selection
use mock_server.Prelude.{String, List, [], ◌∷◌, ◌++◌, ◌&&◌, Option, none, some, ◌==◌, if◌then◌else◌}
use mock_server.Util.Text.{◌^◌}

-- One name for each of the closures.
pub data Handler : Type 0 where
  ping : Handler
  get_static get_expected_response post_static put_static delete_static : Handler
  get_dynamic get_code post_dynamic put_dynamic delete_dynamic : Handler
  get_proxy get_proxy_url post_proxy put_proxy delete_proxy : Handler
  get_pools get_config get_read get_write post_read post_write post_pool delete_pool : Handler
  get_esb get_esb_code post_esb post_esb_task delete_esb : Handler

pub record Entry : Type 0 where
  pub method : String
  pub path : String
  pub handler : Handler

abbrev entry : String → String → Handler → Entry
entry method path handler = record { method = method; path = path; handler = handler }

-- The argument is the path of the group; so `routes.GET(staticRoutesEndpoint, ...)` with the group of
-- /api/routes is the first entry.
abbrev pub init_routes_api_static : String → List Entry
init_routes_api_static routes =
    let static_routes_endpoint : String = "/static" in
    entry "GET" (routes ^ static_routes_endpoint) get_static
    ∷ entry "GET" (routes ^ static_routes_endpoint ^ "/expected_response") get_expected_response
    ∷ entry "POST" (routes ^ static_routes_endpoint) post_static
    ∷ entry "PUT" (routes ^ static_routes_endpoint) put_static
    ∷ entry "DELETE" (routes ^ static_routes_endpoint) delete_static
    ∷ []

abbrev pub init_routes_api_dynamic : String → List Entry
init_routes_api_dynamic routes =
    let dynamic_routes_endpoint : String = "/dynamic" in
    entry "GET" (routes ^ dynamic_routes_endpoint) get_dynamic
    ∷ entry "GET" (routes ^ dynamic_routes_endpoint ^ "/code") get_code
    ∷ entry "POST" (routes ^ dynamic_routes_endpoint) post_dynamic
    ∷ entry "PUT" (routes ^ dynamic_routes_endpoint) put_dynamic
    ∷ entry "DELETE" (routes ^ dynamic_routes_endpoint) delete_dynamic
    ∷ []

abbrev pub init_routes_api_proxy : String → List Entry
init_routes_api_proxy routes =
    let proxy_routes_endpoint : String = "/proxy" in
    entry "GET" (routes ^ proxy_routes_endpoint) get_proxy
    ∷ entry "GET" (routes ^ proxy_routes_endpoint ^ "/proxy_url") get_proxy_url
    ∷ entry "POST" (routes ^ proxy_routes_endpoint) post_proxy
    ∷ entry "PUT" (routes ^ proxy_routes_endpoint) put_proxy
    ∷ entry "DELETE" (routes ^ proxy_routes_endpoint) delete_proxy
    ∷ []

abbrev pub init_brokers_api_pool : String → List Entry
init_brokers_api_pool brokers_api =
    let pool_brokers_endpoint : String = "/pool" in
    let pool : String = brokers_api ^ pool_brokers_endpoint in
    entry "GET" (brokers_api ^ pool_brokers_endpoint) get_pools
    ∷ entry "GET" (brokers_api ^ pool_brokers_endpoint ^ "/config") get_config
    ∷ entry "GET" (pool ^ "/read") get_read
    ∷ entry "GET" (pool ^ "/write") get_write
    ∷ entry "POST" (pool ^ "/read") post_read
    ∷ entry "POST" (pool ^ "/write") post_write
    ∷ entry "POST" (brokers_api ^ pool_brokers_endpoint) post_pool
    ∷ entry "DELETE" (brokers_api ^ pool_brokers_endpoint) delete_pool
    ∷ []

abbrev pub init_brokers_api_esb : String → List Entry
init_brokers_api_esb brokers_api =
    let esb_brokers_endpoint : String = "/esb" in
    entry "GET" (brokers_api ^ esb_brokers_endpoint) get_esb
    ∷ entry "GET" (brokers_api ^ esb_brokers_endpoint ^ "/code") get_esb_code
    ∷ entry "POST" (brokers_api ^ esb_brokers_endpoint) post_esb
    ∷ entry "POST" (brokers_api ^ esb_brokers_endpoint ^ "/task") post_esb_task
    ∷ entry "DELETE" (brokers_api ^ esb_brokers_endpoint) delete_esb
    ∷ []

-- The handler for all other requests, `initNoRoute`, has no entry.
unfoldable pub init_main_routes : List Entry
init_main_routes =
    let api : String = "/api" in
    let routes_api : String = api ^ "/routes" in
    let brokers_api : String = api ^ "/brokers" in
    entry "GET" (api ^ "/ping") ping
    ∷ (init_routes_api_static routes_api
        ++ init_routes_api_dynamic routes_api
        ++ init_routes_api_proxy routes_api
        ++ init_brokers_api_pool brokers_api
        ++ init_brokers_api_esb brokers_api)

-- The handler that a list of registrations gives to a method and a path.
abbrev pub find_handler : List Entry → String → String → Option Handler
find_handler [] method path = none
find_handler (e ∷ es) method path =
    if e.method == method && e.path == path then some e.handler else find_handler es method path

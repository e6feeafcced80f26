-- ===== src/Server/Serve.antt =====
-- internal/server/server.go: the whole server, as a function from a request and a state.
-- The state is what the handlers share: the collections with their caches, the files under
-- FS_ROOT_DIR, the clients of the brokers, the scheduled tasks and the script workers.
pub mod Calls
pub mod Frame
pub mod Settled
pub mod Invariants
pub mod Caches
pub mod Mocks
use mock_server.Prelude.{◌≡◌, ◌≢◌, String, List, [], ◌∷◌, ◌++◌, Option, none, some}
use mock_server.Errors.{Error, Result, ok, err}
use mock_server.Util.Text.{◌^◌}
use mock_server.Database.Documents.{Route, EsbRecord, MessagePool}
use mock_server.Database.Driver.{Collection, Cache}
use mock_server.Database.Store.{Store}
use mock_server.Brokers.Registry.{Codec, Clients}
use mock_server.Coderun.RunScript.{ScriptWorkers}
use mock_server.Server.Http.{
  PoolView, EsbView, BrokerTask, text, Response, reply, status_ok, StaticEndpoint, ProxyEndpoint,
  DynamicEndpoint,
}
use mock_server.Server.Files.{FileStorage}
use mock_server.Server.Router.{
  Handler, ping, get_static, get_expected_response, post_static, put_static, delete_static,
  get_dynamic, get_code, post_dynamic, put_dynamic, delete_dynamic, get_proxy, get_proxy_url,
  post_proxy, put_proxy, delete_proxy, get_pools, get_config, get_read, get_write, post_read,
  post_write, post_pool, delete_pool, get_esb, get_esb_code, post_esb, post_esb_task, delete_esb,
  Entry, init_main_routes, find_handler,
}
use mock_server.Server.Gin.{HttpRequest, Selection, handled, unmatched, answered, Gin}
use mock_server.Server.StaticRoutes
use mock_server.Server.DynamicRoutes
use mock_server.Server.DynamicRoutes.{Dynamic}
use mock_server.Server.ProxyRoutes
use mock_server.Server.PoolBrokers
use mock_server.Server.PoolBrokers.{Brokers}
use mock_server.Server.EsbBrokers
use mock_server.Server.EsbBrokers.{Esb}
use mock_server.Server.NoRoute.{Request, Url, Urls, Outcome, no_route}

-- What becomes of a request: the responses of a handler of the API, the outcome of a mock endpoint, or
-- an answer of gin's.
pub data Answer : Type 0 where
  responses : List Response → Answer
  mocked : Outcome → Answer
  by_gin : Response → Answer

-- The libraries and services that the server uses.
pub record Externals : Type 1 where
  pub routes_coll : Collection
  pub routes_cache : Cache Route
  pub esb_coll : Collection
  pub esb_cache : Cache EsbRecord
  pub pools_coll : Collection
  pub pools_cache : Cache MessagePool
  pub messages_coll : Collection
  pub codec : Codec
  pub clients : Clients
  pub files : FileStorage
  pub workers : ScriptWorkers
  pub urls : Urls

abbrev error_of_url : Result Url → Option Error
error_of_url (ok u) = none
error_of_url (err e) = some e

module _ (X : Externals) where
  pub record State : Type 0 where
    pub routes : Store X.routes_coll X.routes_cache
    pub esb_records : Store X.esb_coll X.esb_cache
    pub brokers : Brokers X.codec X.clients X.pools_coll X.pools_cache X.messages_coll
    pub fs : X.files.State
    pub workers : X.workers.State

  on_routes :
      State
      → (Store X.routes_coll X.routes_cache → Store X.routes_coll X.routes_cache × Response)
      → State × List Response
  on_routes s f = let (routes, r) = f s.routes in (record s { routes = routes }, r ∷ [])

  on_dynamic :
      State
      → (Dynamic X.routes_coll X.routes_cache X.files
          → Dynamic X.routes_coll X.routes_cache X.files × List Response)
      → State × List Response
  on_dynamic s f =
      let (d, rs) = f (record { store = s.routes; files = s.fs }) in
      (record s { routes = d.store; fs = d.files }, rs)

  on_pools :
      State
      → (Brokers X.codec X.clients X.pools_coll X.pools_cache X.messages_coll
          → Brokers X.codec X.clients X.pools_coll X.pools_cache X.messages_coll × List Response)
      → State × List Response
  on_pools s f = let (b, rs) = f s.brokers in (record s { brokers = b }, rs)

  on_esb :
      State
      → (Esb X.esb_coll X.esb_cache X.files → Esb X.esb_coll X.esb_cache X.files × Response)
      → State × List Response
  on_esb s f =
      let (e, r) = f (record { store = s.esb_records; files = s.fs }) in
      (record s { esb_records = e.store; fs = e.files }, r ∷ [])

  esb_task : Result BrokerTask → State → State × List Response
  esb_task task s =
      let (registry, tasks, r) =
        EsbBrokers.post_esb_task X.codec X.clients X.pools_coll X.pools_cache task
          s.brokers.registry in
      (
        record s {
          brokers = record s.brokers {
            registry = registry;
            scheduled = s.brokers.scheduled ++ tasks;
          };
        },
        r ∷ [],
      )

  -- The closures, with what each captures.
  unfoldable pub run_handler : Handler → HttpRequest → State → State × List Response
  unfolding on_routes on_dynamic on_pools on_esb esb_task
  run_handler ping req s = (s, reply status_ok (text "Ping yourself, I have another work!") ∷ [])
  run_handler get_static req s = on_routes s (StaticRoutes.get_static X.routes_coll X.routes_cache)
  run_handler get_expected_response req s =
      on_routes s
        (StaticRoutes.get_expected_response X.routes_coll X.routes_cache (req.query "path"))
  run_handler post_static req s =
      on_routes s (StaticRoutes.post_static X.routes_coll X.routes_cache req.static_endpoint)
  run_handler put_static req s =
      on_routes s (StaticRoutes.put_static X.routes_coll X.routes_cache req.static_endpoint)
  run_handler delete_static req s =
      on_routes s (StaticRoutes.delete_static X.routes_coll X.routes_cache (req.query "path"))
  run_handler get_dynamic req s =
      on_dynamic s (DynamicRoutes.get_dynamic X.routes_coll X.routes_cache X.files)
  run_handler get_code req s =
      on_dynamic s (DynamicRoutes.get_code X.routes_coll X.routes_cache X.files (req.query "path"))
  run_handler post_dynamic req s = on_dynamic s (
      DynamicRoutes.post_dynamic X.routes_coll X.routes_cache X.files req.stamp
        req.dynamic_endpoint)
  run_handler put_dynamic req s =
      on_dynamic s
        (DynamicRoutes.put_dynamic X.routes_coll X.routes_cache X.files req.dynamic_endpoint)
  run_handler delete_dynamic req s =
      on_dynamic s
        (DynamicRoutes.delete_dynamic X.routes_coll X.routes_cache X.files (req.query "path"))
  run_handler get_proxy req s = on_routes s (ProxyRoutes.get_proxy X.routes_coll X.routes_cache)
  run_handler get_proxy_url req s =
      on_routes s (ProxyRoutes.get_proxy_url X.routes_coll X.routes_cache (req.query "path"))
  run_handler post_proxy req s = on_routes s (
      ProxyRoutes.post_proxy (λ url. error_of_url (X.urls.parse_request_uri url)) X.routes_coll
        X.routes_cache req.proxy_endpoint)
  run_handler put_proxy req s = on_routes s (
      ProxyRoutes.put_proxy (λ url. error_of_url (X.urls.parse_request_uri url)) X.routes_coll
        X.routes_cache req.proxy_endpoint)
  run_handler delete_proxy req s =
      on_routes s (ProxyRoutes.delete_proxy X.routes_coll X.routes_cache (req.query "path"))
  run_handler get_pools req s =
      on_pools s
        (PoolBrokers.get_pools X.codec X.clients X.pools_coll X.pools_cache X.messages_coll)
  run_handler get_config req s = on_pools s (
      PoolBrokers.get_config X.codec X.clients X.pools_coll X.pools_cache X.messages_coll
        (req.query "pool"))
  run_handler get_read req s = on_pools s (
      PoolBrokers.get_read X.codec X.clients X.pools_coll X.pools_cache X.messages_coll
        (req.query "pool"))
  run_handler get_write req s = on_pools s (
      PoolBrokers.get_write X.codec X.clients X.pools_coll X.pools_cache X.messages_coll
        (req.query "pool"))
  run_handler post_read req s = on_pools s (
      PoolBrokers.post_read X.codec X.clients X.pools_coll X.pools_cache X.messages_coll
        (req.query "pool"))
  run_handler post_write req s = on_pools s (
      PoolBrokers.post_write X.codec X.clients X.pools_coll X.pools_cache X.messages_coll
        req.broker_task)
  run_handler post_pool req s = on_pools s (
      PoolBrokers.post_pool X.codec X.clients X.pools_coll X.pools_cache X.messages_coll
        req.message_pool)
  run_handler delete_pool req s = on_pools s (
      PoolBrokers.delete_pool X.codec X.clients X.pools_coll X.pools_cache X.messages_coll
        (req.query "pool"))
  run_handler get_esb req s = on_esb s (EsbBrokers.get_esb X.esb_coll X.esb_cache X.files)
  run_handler get_esb_code req s =
      on_esb s (EsbBrokers.get_esb_code X.esb_coll X.esb_cache X.files (req.query "pool_in"))
  run_handler post_esb req s =
      on_esb s (EsbBrokers.post_esb X.esb_coll X.esb_cache X.files req.stamp req.esb_record)
  run_handler post_esb_task req s = esb_task req.broker_task s
  run_handler delete_esb req s =
      on_esb s (EsbBrokers.delete_esb X.esb_coll X.esb_cache X.files (req.query "pool_in"))

  unfoldable pub selected : Selection → HttpRequest → State → State × Answer
  selected (handled h) req s = let (s', rs) = run_handler h req s in (s', responses rs)
  selected (answered r) req s = (s, by_gin r)
  selected unmatched req s =
      let (routes, workers, outcome) =
        no_route X.workers X.routes_coll X.routes_cache X.urls req.raw s.routes s.workers in
      (record s { routes = routes; workers = workers }, mocked outcome)

  unfoldable pub serve : Gin → HttpRequest → State → State × Answer
  unfolding selected
  serve G req s = selected (G.select init_main_routes req) req s

  unfoldable pub serve_all : Gin → List HttpRequest → State → State
  serve_all G [] s = s
  serve_all G (req ∷ reqs) s = serve_all G reqs (serve G req s).0

-- ===== src/Server/Serve/Caches.antt =====
-- internal/server as a whole: the caches of internal/database under any requests.
use mock_server.Prelude.{◌≡◌, refl, ap, subst, inr, List, [], ◌∷◌, All}
use mock_server.Database.Driver.{CollectionLaws, CacheLaws}
use mock_server.Database.Store.Coherence.{IsCoherent}
use mock_server.Database.Records.{esb_schema}
use mock_server.Database.Routes.Calls.{IsValid, AllSettled}
use mock_server.Brokers.Registry.Stored.Caches.{IsCoherentRegistry}
use mock_server.Server.PoolBrokers
use mock_server.Server.PoolBrokers.Caches.{
  get_config-IsCoherentRegistry, get_read-IsCoherentRegistry, get_write-IsCoherentRegistry,
  post_read-IsCoherentRegistry, post_write-IsCoherentRegistry, post_pool-IsCoherentRegistry,
  delete_pool-IsCoherentRegistry,
}
use mock_server.Server.EsbBrokers
use mock_server.Server.EsbBrokers.{Esb}
use mock_server.Server.EsbBrokers.Caches.{
  get_esb_code-IsCoherent, post_esb-IsCoherent, delete_esb-IsCoherent,
  post_esb_task-IsCoherentRegistry,
}
use mock_server.Server.Router.{
  Handler, init_main_routes, ping, get_static, get_expected_response, post_static, put_static,
  delete_static, get_dynamic, get_code, post_dynamic, put_dynamic, delete_dynamic, get_proxy,
  get_proxy_url, post_proxy, put_proxy, delete_proxy, get_pools, get_config, get_read, get_write,
  post_read, post_write, post_pool, delete_pool, get_esb, get_esb_code, post_esb, post_esb_task,
  delete_esb,
}
use mock_server.Server.Gin.{HttpRequest, Selection, handled, unmatched, answered, Gin, GinLaws}
use mock_server.Server.Serve.{
  Externals, State, responses, on_routes, on_dynamic, on_pools, on_esb, esb_task, run_handler,
  selected, serve, serve_all,
}
use mock_server.Server.Serve.Calls.{selected_calls}
use mock_server.Server.Serve.Settled.{IsChange, HasNoFailure, calls-AllSettled}
use mock_server.Server.Serve.Invariants.{IsPutProxy, serve-IsValid}
use mock_server.Server.Http.{Response}
use mock_server.Server.Router.Selection.{
  endpoint_of, init_main_routes-IsDistinct, find_handler-eq-some_iff,
}

-- The three cached collections and their caches behave as documented.
pub record ExternalsLaws (X : Externals) : Type 1 where
  pub routes : CollectionLaws X.routes_coll "path"
  pub routes_cache : CacheLaws X.routes_cache
  pub esb : CollectionLaws X.esb_coll "pool_name_in"
  pub esb_cache : CacheLaws X.esb_cache
  pub pools : CollectionLaws X.pools_coll "name"
  pub pools_cache : CacheLaws X.pools_cache

module _ {X : Externals} (A : ExternalsLaws X) where
  abbrev HasCoherent : State X → Type 0
  HasCoherent s =
      IsCoherent esb_schema A.esb A.esb_cache s.esb_records
      × IsCoherentRegistry A.pools A.pools_cache s.brokers.registry

  abbrev esb_of : State X → Esb X.esb_coll X.esb_cache X.files
  esb_of s = record { store = s.esb_records; files = s.fs }

  run_handler-IsCoherent :
      (h : Handler) (req : HttpRequest) (s : State X)
      → (IsChange (endpoint_of h).0 → HasNoFailure (run_handler X h req s).1)
      → HasCoherent s
      → HasCoherent (run_handler X h req s).0
  unfolding run_handler on_routes on_dynamic on_pools on_esb esb_task PoolBrokers.get_pools
      EsbBrokers.get_esb
  run_handler-IsCoherent ping req s f (e, p) = (e, p)
  run_handler-IsCoherent get_static req s f (e, p) = (e, p)
  run_handler-IsCoherent get_expected_response req s f (e, p) = (e, p)
  run_handler-IsCoherent post_static req s f (e, p) = (e, p)
  run_handler-IsCoherent put_static req s f (e, p) = (e, p)
  run_handler-IsCoherent delete_static req s f (e, p) = (e, p)
  run_handler-IsCoherent get_dynamic req s f (e, p) = (e, p)
  run_handler-IsCoherent get_code req s f (e, p) = (e, p)
  run_handler-IsCoherent post_dynamic req s f (e, p) = (e, p)
  run_handler-IsCoherent put_dynamic req s f (e, p) = (e, p)
  run_handler-IsCoherent delete_dynamic req s f (e, p) = (e, p)
  run_handler-IsCoherent get_proxy req s f (e, p) = (e, p)
  run_handler-IsCoherent get_proxy_url req s f (e, p) = (e, p)
  run_handler-IsCoherent post_proxy req s f (e, p) = (e, p)
  run_handler-IsCoherent put_proxy req s f (e, p) = (e, p)
  run_handler-IsCoherent delete_proxy req s f (e, p) = (e, p)
  run_handler-IsCoherent get_pools req s f (e, p) = (e, p)
  run_handler-IsCoherent get_config req s f (e, p) =
      (e, get_config-IsCoherentRegistry A.pools A.pools_cache (req.query "pool") s.brokers p)
  run_handler-IsCoherent get_read req s f (e, p) =
      (e, get_read-IsCoherentRegistry A.pools A.pools_cache (req.query "pool") s.brokers p)
  run_handler-IsCoherent get_write req s f (e, p) =
      (e, get_write-IsCoherentRegistry A.pools A.pools_cache (req.query "pool") s.brokers p)
  run_handler-IsCoherent post_read req s f (e, p) =
      (e, post_read-IsCoherentRegistry A.pools A.pools_cache (req.query "pool") s.brokers p)
  run_handler-IsCoherent post_write req s f (e, p) =
      (e, post_write-IsCoherentRegistry A.pools A.pools_cache req.broker_task s.brokers p)
  run_handler-IsCoherent post_pool req s f (e, p) =
      (e, post_pool-IsCoherentRegistry A.pools A.pools_cache req.message_pool s.brokers p)
  run_handler-IsCoherent delete_pool req s f (e, p) = (
    e,
    delete_pool-IsCoherentRegistry A.pools A.pools_cache (req.query "pool") s.brokers (f (inr refl))
        p,
  )
  run_handler-IsCoherent get_esb req s f (e, p) = (e, p)
  run_handler-IsCoherent get_esb_code req s f (e, p) =
      (get_esb_code-IsCoherent A.esb A.esb_cache (req.query "pool_in") (esb_of s) e, p)
  run_handler-IsCoherent post_esb req s f (e, p) =
      (post_esb-IsCoherent A.esb A.esb_cache req.stamp req.esb_record (esb_of s) e, p)
  run_handler-IsCoherent post_esb_task req s f (e, p) = (
    e,
    post_esb_task-IsCoherentRegistry A.pools A.pools_cache req.broker_task s.brokers.registry p,
  )
  run_handler-IsCoherent delete_esb req s f (e, p) = (
    delete_esb-IsCoherent A.esb A.esb_cache (req.query "pool_in") (esb_of s) (f (inr refl)).0 e,
    p,
  )

  -- A request that is handled has been answered by its handler, whose endpoint has its method.
  selected-IsCoherent :
      (selection : Selection) (req : HttpRequest) (s : State X)
      → ((h : Handler)
          → selection ≡ handled h
          → IsChange (endpoint_of h).0
          → HasNoFailure (run_handler X h req s).1)
      → HasCoherent s
      → HasCoherent (selected X selection req s).0
  unfolding selected
  selected-IsCoherent (handled h) req s f c = run_handler-IsCoherent h req s (f h refl) c
  selected-IsCoherent unmatched req s f c = c
  selected-IsCoherent (answered r) req s f c = c

  -- The stored endpoints are valid, and no cache contradicts its collection.
  pub record IsValidState (s : State X) : Type 0 where
    pub routes : IsValid A.routes A.routes_cache s.routes
    pub esb_records : IsCoherent esb_schema A.esb A.esb_cache s.esb_records
    pub pools : IsCoherentRegistry A.pools A.pools_cache s.brokers.registry

  -- No PUT and no DELETE of the requests is answered 500.
  abbrev pub HasNoFailedChange : Gin → List HttpRequest → State X → Type 0
  HasNoFailedChange G [] s = Unit {0}
  HasNoFailedChange G (req ∷ reqs) s =
      (IsChange req.raw.method
        → (rs : List Response) → (serve X G req s).1 ≡ responses rs
        → HasNoFailure rs)
      × HasNoFailedChange G reqs (serve X G req s).0

  module _ {G : Gin} (N : GinLaws G) where
    handler_fine :
        (req : HttpRequest) (s : State X)
        → (IsChange req.raw.method
            → (rs : List Response) → (serve X G req s).1 ≡ responses rs
            → HasNoFailure rs)
        → (h : Handler) → G.select init_main_routes req ≡ handled h
        → IsChange (endpoint_of h).0
        → HasNoFailure (run_handler X h req s).1
    unfolding serve selected
    handler_fine req s f h chosen change =
        let at : endpoint_of h ≡ (req.raw.method, req.path) =
          (find_handler-eq-some_iff req.raw.method req.path h).0
            (N.handled_registered init_main_routes req h init_main_routes-IsDistinct chosen) in
        f (subst IsChange (ap (λ p. p.0) at) change) _ (rw chosen refl)

    settled_of_fine :
        (selection : Selection) (req : HttpRequest) (s : State X)
        → ((h : Handler)
            → selection ≡ handled h
            → IsChange (endpoint_of h).0
            → HasNoFailure (run_handler X h req s).1)
        → AllSettled X.routes_coll X.routes_cache s.routes (selected_calls X selection req s)
    settled_of_fine (handled h) req s f = calls-AllSettled X h req s (f h refl)
    settled_of_fine unmatched req s f = (tt, tt)
    settled_of_fine (answered r) req s f = tt

    serve-HasCoherent :
        (req : HttpRequest) (s : State X)
        → ((h : Handler)
            → G.select init_main_routes req ≡ handled h
            → IsChange (endpoint_of h).0
            → HasNoFailure (run_handler X h req s).1)
        → HasCoherent s
        → HasCoherent (serve X G req s).0
    unfolding serve
    serve-HasCoherent req s fine c =
        selected-IsCoherent (G.select init_main_routes req) req s fine c

    serve-IsValidState :
        (req : HttpRequest) (s : State X)
        → ¬ IsPutProxy req
        → (IsChange req.raw.method
            → (rs : List Response) → (serve X G req s).1 ≡ responses rs
            → HasNoFailure rs)
        → IsValidState s
        → IsValidState (serve X G req s).0
    serve-IsValidState req s n f v =
        let fine = handler_fine req s f in
        let (esb_records, pools) = serve-HasCoherent req s fine (v.esb_records, v.pools) in
        record {
          routes =
              serve-IsValid A.routes A.routes_cache N req s n
                (settled_of_fine (G.select init_main_routes req) req s fine) v.routes;
          esb_records = esb_records;
          pools = pools;
        }

    -- If the stored endpoints are valid and the caches of the ESB records and of the pools agree
    -- with their collections, all this holds after any requests to the API or to mock endpoints
    -- other than PUT /api/routes/proxy, in any order, if none of those with PUT or DELETE is
    -- answered 500, whatever errors the others meet and also if an insertion that has returned an
    -- error was applied.
    pub serve_all-IsValidState :
        (reqs : List HttpRequest) (s : State X)
        → All (λ req. ¬ IsPutProxy req) reqs
        → HasNoFailedChange G reqs s
        → IsValidState s
        → IsValidState (serve_all X G reqs s)
    unfolding serve_all
    serve_all-IsValidState [] s n f v = v
    serve_all-IsValidState (req ∷ reqs) s n f v =
        serve_all-IsValidState reqs (serve X G req s).0 n.1 f.1 (serve-IsValidState req s n.0 f.0 v)

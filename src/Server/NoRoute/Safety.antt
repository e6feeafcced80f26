-- ===== src/Server/NoRoute/Safety.antt =====
-- internal/server/noroute_handler.go: how requests to mock endpoints end.
use mock_server.Prelude.{◌≡◌, ◌≢◌, ◌⊎◌, inl, inr, String, Option, some, arith}
use mock_server.Errors.{Error, Result, ok, err}
use mock_server.Database.Documents.{
  Route, static_endpoint_type, proxy_endpoint_type, dynamic_endpoint_type,
}
use mock_server.Database.Driver.{Collection, Cache, CollectionLaws, CacheLaws}
use mock_server.Database.Store.{Store}
use mock_server.Database.Store.Coherence.{get-Gets}
use mock_server.Database.Routes
use mock_server.Database.Routes.{route_schema}
use mock_server.Database.Routes.Update.{routes}
use mock_server.Database.Routes.Calls.{IsPlain, IsValid}
use mock_server.Coderun.RunScript.{ScriptWorkers}
use mock_server.Server.NoRoute.{
  Request, Url, Urls, exits, handle_route, no_route, director, forward, handle_static_route_request,
  handle_proxy_route_request, handle_dynamic_route_request, run_borrowed, run_with_header,
  run_with_body, run_reply, returning,
}

module _ (W : ScriptWorkers) where
  run_reply_answers : (output : String) (e : Option Error) → run_reply W output e ≢ exits
  unfolding run_reply
  run_reply_answers output e h = ground arith

  run_with_header_answers :
      (w : W.Worker) (route : Route) (header body : Result String) (s : W.State)
      → (run_with_header W w route header body s).1 ≢ exits
  unfolding run_with_header run_with_body
  run_with_header_answers w route (err e) body s h = ground arith
  run_with_header_answers w route (ok header) (err e) s h = ground arith
  run_with_header_answers w route (ok header) (ok body) s h = run_reply_answers _ _ h

  run_borrowed_answers :
      (req : Request) (route : Route) (p : W.State × Result W.Worker)
      → (run_borrowed W req route p).1 ≢ exits
  unfolding run_borrowed returning
  run_borrowed_answers req route (s, err e) h = ground arith
  run_borrowed_answers req route (s, ok w) h =
      run_with_header_answers w route req.header req.body s h

  handle_route_answers :
      (urls : Urls) (req : Request) (route : Route) (s : W.State)
      → (route.kind ≡ static_endpoint_type)
        ⊎ (route.kind ≡ dynamic_endpoint_type)
        ⊎ (route.kind ≡ proxy_endpoint_type)
      → (route.kind ≡ proxy_endpoint_type
          → (u : Url) × (urls.parse_request_uri route.proxy_url ≡ ok u))
      → (handle_route W urls req route s).1 ≢ exits
  unfolding handle_route handle_static_route_request handle_proxy_route_request
      handle_dynamic_route_request director forward
  handle_route_answers urls req route s (inl e) p h = let h' = rw e at h in cc
  handle_route_answers urls req route s (inr (inl e)) p h =
      run_borrowed_answers req route (W.borrow_worker s) (rw e at h)
  handle_route_answers urls req route s (inr (inr e)) p h =
      let (u, parsed) = p e in let h' = rw (e, parsed) at h in cc

module _ {C : Collection} {K : Cache Route} (L : CollectionLaws C "path") (M : CacheLaws K)
    (W : ScriptWorkers) (urls : Urls) where
  kinds :
      (r : Route)
      → IsPlain L M r
      → (r.kind ≡ static_endpoint_type)
        ⊎ (r.kind ≡ dynamic_endpoint_type)
        ⊎ (r.kind ≡ proxy_endpoint_type)
  kinds r (inl (e, _, _)) = inl e
  kinds r (inr (inl (e, _, _))) = inr (inl e)
  kinds r (inr (inr (e, _, _))) = inr (inr e)

  -- If the store is valid and the proxy URL of the route at the request's URI, where that is a
  -- proxy route, can be parsed, then the request does not end the process, whatever the database
  -- and the workers return.
  pub no_route_answers :
      (req : Request) (s : Store C K) (w : W.State)
      → IsValid L M s
      → ((r : Route)
          → routes L M s req.request_uri ≡ some r
          → r.kind ≡ proxy_endpoint_type
          → (u : Url) × (urls.parse_request_uri r.proxy_url ≡ ok u))
      → (no_route W C K urls req s w).2 ≢ exits
  unfolding no_route Routes.get_route
  no_route_answers req s w v p h = elim (get-Gets route_schema L M req.request_uri s v.coherent) [
    | inl (r, e, now) ↦
        handle_route_answers W urls req r w (kinds r (v.plain req.request_uri r now).1) (p r now)
          (rw e at h)
    | inr (inl (e, gone)) ↦ let h' = rw e at h in cc
    | inr (inr (e, h', down)) ↦ let h'' = rw h' at h in cc
  ]

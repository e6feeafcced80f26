-- ===== src/Server/Serve/Mocks.antt =====
-- internal/server as a whole: a client creates an endpoint, and others use the server until the endpoint
-- is requested.
use mock_server.Prelude.{
  ◌≡◌, inl, inr, refl, ap, sym, ◌∙◌, subst, List, [], ◌∷◌, some, eq_refl, All,
}
use mock_server.Errors.{ok}
use mock_server.Database.Driver.{CollectionLaws, CacheLaws}
use mock_server.Database.Store.Coherence.{add-Adds}
use mock_server.Database.Routes
use mock_server.Database.Routes.{route_schema, static_route}
use mock_server.Database.Routes.Update.{routes}
use mock_server.Database.Routes.Calls.{route_laws, IsValid}
use mock_server.Server.Http.{StaticEndpoint, text, reply, status_ok}
use mock_server.Server.StaticRoutes
use mock_server.Server.StaticRoutes.{post_static_ok}
use mock_server.Server.Router.{post_static, init_main_routes}
use mock_server.Server.Router.Selection.{
  endpoint_of, init_main_routes-IsDistinct, find_handler-eq-some_iff,
}
use mock_server.Server.NoRoute.{responds}
use mock_server.Server.NoRoute.Answers.{serve_static}
use mock_server.Server.Gin.{HttpRequest, handled, unmatched, Gin, GinLaws}
use mock_server.Server.Serve.{
  Externals, State, responses, mocked, on_routes, run_handler, selected, serve, serve_all,
}
use mock_server.Server.Serve.Invariants.{
  WritesPath, HasSettled, serve-IsValid, serve_all-IsCoherentAt, serve_all-frame,
}

-- POST /api/routes/static
abbrev pub IsPostStatic : HttpRequest → Type 0
IsPostStatic req = endpoint_of post_static ≡ (req.raw.method, req.path)

module _ {X : Externals} {G : Gin} (L : CollectionLaws X.routes_coll "path")
    (M : CacheLaws X.routes_cache) (N : GinLaws G) where
  post_static_handled :
      (req : HttpRequest) (s : State X)
      → IsPostStatic req
      → req.origin ≡ ""
      → serve X G req s ≡ selected X (handled post_static) req s
  unfolding serve
  post_static_handled req s at same_origin =
      ap (λ selection. selected X selection req s)
        (N.registered init_main_routes req post_static init_main_routes-IsDistinct same_origin
          ((find_handler-eq-some_iff req.raw.method req.path post_static).1 at))

  stored_of_posted :
      (endpoint : StaticEndpoint) (req : HttpRequest) (s : State X)
      → req.static_endpoint ≡ ok endpoint
      → (selected X (handled post_static) req s).1
        ≡ responses (reply status_ok (text "Static endpoint successfully added!") ∷ [])
      → routes L M (selected X (handled post_static) req s).0.routes endpoint.path
        ≡ some (static_route endpoint.path endpoint.expected_response)
  unfolding selected run_handler on_routes StaticRoutes.post_static Routes.add_static_endpoint
      Routes.add_route
  stored_of_posted endpoint req s bound done =
      let route = static_route endpoint.path endpoint.expected_response in
      let answer = rw bound at done in
      let nil = post_static_ok endpoint s.routes (cc) in
      elim (add-Adds route_schema L M route_laws route s.routes) [
        | inl (_, (_, after)) ↦ rw (bound, after endpoint.path, eq_refl endpoint.path) refl
        | inr (bad, _) ↦ absurd (bad nil)
      ]

  settled_of_posted :
      (endpoint : StaticEndpoint) (req : HttpRequest) (s : State X)
      → IsPostStatic req
      → req.origin ≡ ""
      → req.static_endpoint ≡ ok endpoint
      → HasSettled L M N req s
  settled_of_posted endpoint req s at same_origin bound =
      rw
        (
          N.registered init_main_routes req post_static init_main_routes-IsDistinct same_origin
              ((find_handler-eq-some_iff req.raw.method req.path post_static).1 at),
          bound,
        )
        (tt, tt)

  -- If the stored endpoints are valid, a POST /api/routes/static of the same origin is answered
  -- 200, then any requests are served that do not create, change or delete an endpoint under its
  -- path, whatever errors they meet, and the database answers, then a request that gin leaves to
  -- the mock endpoints and whose URI is the path is answered 200 with the expected response.
  pub serve-post_static :
      (endpoint : StaticEndpoint) (post req : HttpRequest) (reqs : List HttpRequest) (s : State X)
      → IsValid L M s.routes
      → IsPostStatic post
      → post.origin ≡ ""
      → post.static_endpoint ≡ ok endpoint
      → (serve X G post s).1
        ≡ responses (reply status_ok (text "Static endpoint successfully added!") ∷ [])
      → All (λ r. ¬ WritesPath endpoint.path r) reqs
      → L.Up (serve_all X G reqs (serve X G post s).0).routes.coll
      → G.select init_main_routes req ≡ unmatched
      → req.raw.request_uri ≡ endpoint.path
      → (serve X G req (serve_all X G reqs (serve X G post s).0)).1
        ≡ mocked (responds (reply status_ok (text endpoint.expected_response)))
  unfolding serve selected
  serve-post_static endpoint post req reqs s v at same_origin bound done left up away here =
      let s1 : State X = (serve X G post s).0 in
      let s2 : State X = serve_all X G reqs s1 in
      let chosen = post_static_handled post s at same_origin in
      let stored =
        serve_all-frame L M N reqs s1 endpoint.path left
        ∙ subst
            (λ out.
              routes L M out.0.routes endpoint.path
              ≡ some (static_route endpoint.path endpoint.expected_response))
            (sym chosen) (stored_of_posted endpoint post s bound (rw chosen at done)) in
      let valid =
        serve-IsValid L M N post s (λ e. let methods = ap (λ p. p.0) (e ∙ sym at) in cc)
          (settled_of_posted endpoint post s at same_origin bound) v in
      let coherent =
        serve_all-IsCoherentAt L M N reqs s1 endpoint.path left (valid.coherent endpoint.path) in
      rw away (
        ap mocked (
          serve_static L M X.workers X.urls endpoint.path endpoint.expected_response req.raw
            s2.routes s2.workers (rw here coherent) up here stored))

-- ===== src/Server/Serve/Invariants.antt =====
-- internal/server as a whole: what holds of the stored endpoints after any requests, and of the answers.
use mock_server.Prelude.{◌≡◌, ◌≢◌, refl, ap, ◌∙◌, String, List, [], ◌∷◌, some, All}
use mock_server.Database.Driver.{CollectionLaws, CacheLaws}
use mock_server.Database.Store.Coherence.{IsCoherentAt}
use mock_server.Database.Routes.{route_schema}
use mock_server.Database.Routes.Update.{routes}
use mock_server.Database.Routes.Calls.{
  IsValid, exec_all-IsValid, exec_all-IsCoherentAt, IsProxyUpdate, AllSettled, call_path,
}
use mock_server.Server.Http.{Response}
use mock_server.Server.Router.{Handler, put_proxy, init_main_routes, find_handler}
use mock_server.Server.Router.Selection.{
  endpoint_of, init_main_routes-IsDistinct, find_handler-eq-some_iff,
}
use mock_server.Server.NoRoute.{Outcome}
use mock_server.Server.Gin.{HttpRequest, Selection, handled, unmatched, answered, Gin, GinLaws}
use mock_server.Server.Serve.{
  Externals, State, responses, mocked, run_handler, selected, serve, serve_all,
}
use mock_server.Server.Serve.Calls.{selected_calls, selected-selected_calls}
use mock_server.Server.Serve.Frame.{
  exec_all-frame, written_path, calls-written_path, calls_updates_no_proxy,
}

-- PUT /api/routes/proxy
abbrev pub IsPutProxy : HttpRequest → Type 0
IsPutProxy req = endpoint_of put_proxy ≡ (req.raw.method, req.path)

abbrev pub WritesPath : String → HttpRequest → Type 0
WritesPath path req =
    written_path (find_handler init_main_routes req.raw.method req.path) req ≡ some path

module _ (X : Externals) where
  -- A request whose method and path have no handler in the API is not one of the API's, and so on.
  mocked_of_unmatched :
      (selection : Selection) (req : HttpRequest) (s : State X) (o : Outcome)
      → (selected X selection req s).1 ≡ mocked o
      → selection ≡ unmatched
  unfolding selected
  mocked_of_unmatched (handled h) req s o e = cc
  mocked_of_unmatched unmatched req s o e = refl
  mocked_of_unmatched (answered r) req s o e = cc

  responses_of_handled :
      (selection : Selection) (req : HttpRequest) (s : State X) (rs : List Response)
      → (selected X selection req s).1 ≡ responses rs
      → (h : Handler) × (selection ≡ handled h) × ((run_handler X h req s).1 ≡ rs)
  unfolding selected
  responses_of_handled (handled h) req s rs e = (h, refl, cc)
  responses_of_handled unmatched req s rs e = cc
  responses_of_handled (answered r) req s rs e = cc

  selected_updates_no_proxy :
      (selection : Selection) (req : HttpRequest) (s : State X)
      → ((h : Handler) → selection ≡ handled h → h ≢ put_proxy)
      → All (λ c. ¬ IsProxyUpdate c) (selected_calls X selection req s)
  selected_updates_no_proxy (handled h) req s n = calls_updates_no_proxy X h req s (n h refl)
  selected_updates_no_proxy unmatched req s n = ((λ x. x), tt)
  selected_updates_no_proxy (answered r) req s n = tt

  selected_leaves :
      (selection : Selection) (req : HttpRequest) (s : State X) (path : String)
      → ((h : Handler) → selection ≡ handled h → written_path (some h) req ≢ some path)
      → All (λ c. call_path c ≢ some path) (selected_calls X selection req s)
  selected_leaves (handled h) req s path n = calls-written_path X h req s path (n h refl)
  selected_leaves unmatched req s path n = ((λ q. cc), tt)
  selected_leaves (answered r) req s path n = tt

module _ {X : Externals} {G : Gin} (N : GinLaws G) where
  -- A mock endpoint answers only requests whose method and path have no handler in the API,
  -- whatever is stored under the path. A handler of the API answers only requests with its own
  -- method and path, and these with the responses that it hands over.
  pub serve_answers :
      (req : HttpRequest) (s : State X)
      → ((o : Outcome)
          → (serve X G req s).1 ≡ mocked o
          → (h : Handler) → endpoint_of h ≢ (req.raw.method, req.path))
        × ((rs : List Response)
            → (serve X G req s).1 ≡ responses rs
            → (h : Handler) × (endpoint_of h ≡ (req.raw.method, req.path))
              × ((run_handler X h req s).1 ≡ rs))
  unfolding serve
  serve_answers req s = (
    λ o e h at.
        let none_here =
          N.unmatched_unregistered init_main_routes req init_main_routes-IsDistinct
            (mocked_of_unmatched X _ req s o e) in
        let here = (find_handler-eq-some_iff req.raw.method req.path h).1 at in cc,
    λ rs e.
        let (h, chosen, same) = responses_of_handled X _ req s rs e in
        (
          h,
          (find_handler-eq-some_iff req.raw.method req.path h).0
              (N.handled_registered init_main_routes req h init_main_routes-IsDistinct chosen),
          same,
        ),
  )

module _ {X : Externals} {G : Gin} (L : CollectionLaws X.routes_coll "path")
    (M : CacheLaws X.routes_cache) (N : GinLaws G) where
  -- The route functions that a request calls return no errors of which it is unknown whether they
  -- were applied.
  abbrev pub HasSettled : HttpRequest → State X → Type 0
  HasSettled req s =
      AllSettled X.routes_coll X.routes_cache s.routes
        (selected_calls X (G.select init_main_routes req) req s)

  pub serve-IsValid :
      (req : HttpRequest) (s : State X)
      → ¬ IsPutProxy req
      → HasSettled req s
      → IsValid L M s.routes
      → IsValid L M (serve X G req s).0.routes
  unfolding serve
  serve-IsValid req s n settled v =
      rw (selected-selected_calls X (G.select init_main_routes req) req s) (
        exec_all-IsValid L M s.routes _
          (selected_updates_no_proxy X (G.select init_main_routes req) req s (λ h chosen e. n (
            (find_handler-eq-some_iff req.raw.method req.path put_proxy).0 (
              N.handled_registered init_main_routes req put_proxy init_main_routes-IsDistinct
                (chosen ∙ ap handled e)))))
          settled v)

  selected_leaves_path :
      (req : HttpRequest) (s : State X) (path : String)
      → ¬ WritesPath path req
      → All (λ c. call_path c ≢ some path) (selected_calls X (G.select init_main_routes req) req s)
  selected_leaves_path req s path n =
      selected_leaves X (G.select init_main_routes req) req s path (λ h chosen e. n (
        ap (λ o. written_path o req)
          (N.handled_registered init_main_routes req h init_main_routes-IsDistinct chosen)
        ∙ e))

  serve-IsCoherentAt :
      (req : HttpRequest) (s : State X) (path : String)
      → ¬ WritesPath path req
      → IsCoherentAt route_schema L M path s.routes
      → IsCoherentAt route_schema L M path (serve X G req s).0.routes
  unfolding serve
  serve-IsCoherentAt req s path n c =
      rw (selected-selected_calls X (G.select init_main_routes req) req s)
        (exec_all-IsCoherentAt L M s.routes _ path (selected_leaves_path req s path n) c)

  -- Requests that write other paths keep the cache true under a path, whatever they are answered.
  pub serve_all-IsCoherentAt :
      (reqs : List HttpRequest) (s : State X) (path : String)
      → All (λ req. ¬ WritesPath path req) reqs
      → IsCoherentAt route_schema L M path s.routes
      → IsCoherentAt route_schema L M path (serve_all X G reqs s).routes
  unfolding serve_all
  serve_all-IsCoherentAt [] s path n c = c
  serve_all-IsCoherentAt (req ∷ reqs) s path n c =
      serve_all-IsCoherentAt reqs (serve X G req s).0 path n.1 (serve-IsCoherentAt req s path n.0 c)

  serve-frame :
      (req : HttpRequest) (s : State X) (path : String)
      → ¬ WritesPath path req
      → routes L M (serve X G req s).0.routes path ≡ routes L M s.routes path
  unfolding serve
  serve-frame req s path n =
      rw (selected-selected_calls X (G.select init_main_routes req) req s)
        (exec_all-frame L M s.routes _ path (selected_leaves_path req s path n))

  pub serve_all-frame :
      (reqs : List HttpRequest) (s : State X) (path : String)
      → All (λ req. ¬ WritesPath path req) reqs
      → routes L M (serve_all X G reqs s).routes path ≡ routes L M s.routes path
  unfolding serve_all
  serve_all-frame [] s path n = refl
  serve_all-frame (req ∷ reqs) s path n =
      serve_all-frame reqs (serve X G req s).0 path n.1 ∙ serve-frame req s path n.0

-- ===== src/Server/NoRoute/Answers.antt =====
-- internal/server: what a client gets from a mock endpoint after it has used the API.
use mock_server.Prelude.{◌≡◌, inl, inr, refl, ap, sym, ◌∙◌, String, none, some, eq_refl}
use mock_server.Errors.{ok}
use mock_server.Util.Text.{◌^◌}
use mock_server.Database.Documents.{Route}
use mock_server.Database.Driver.{Collection, Cache, CollectionLaws, CacheLaws}
use mock_server.Database.Store.{Store}
use mock_server.Database.Store.Coherence.{
  stored, IsCoherentAt, add-Adds, add-IsCoherent, get_at-Gets, remove-Removes,
}
use mock_server.Database.Routes
use mock_server.Database.Routes.{route_schema, static_route}
use mock_server.Database.Routes.Update.{routes, update_route-Updates}
use mock_server.Database.Routes.Calls.{
  route_laws, IsValid, remove_route-eq-remove, overwritten_of_IsPlain, update-IsValid,
  remove-IsValid,
}
use mock_server.Server.Http.{
  StaticEndpoint, reply, text, error_text, status_ok, status_no_content, status_bad_request,
}
use mock_server.Server.StaticRoutes.{
  post_static, put_static, delete_static, post_static_ok, put_static_no_content,
  delete_static_no_content,
}
use mock_server.Coderun.RunScript.{ScriptWorkers}
use mock_server.Server.NoRoute.{
  Request, Urls, responds, handle_route, no_route, handle_static_route_request,
}

module _ {C : Collection} {K : Cache Route} (L : CollectionLaws C "path") (M : CacheLaws K)
    (W : ScriptWorkers) (urls : Urls) where
  -- A stored route is served, whatever the cache has dropped.
  pub serve_stored :
      (req : Request) (s : Store C K) (w : W.State) (r : Route)
      → IsCoherentAt route_schema L M req.request_uri s
      → L.Up s.coll
      → routes L M s req.request_uri ≡ some r
      → (no_route W C K urls req s w).2 ≡ (handle_route W urls req r w).1
  unfolding no_route Routes.get_route
  serve_stored req s w r c up here = elim (get_at-Gets route_schema L M req.request_uri s c) [
    | inl (v, e, now) ↦
        let same : v ≡ r = cc in rw e (ap (λ q. (handle_route W urls req q w).1) same)
    | inr (inl (e, gone)) ↦ cc
    | inr (inr (e, _, down)) ↦ absurd (down up)
  ]

  serve_missing :
      (req : Request) (s : Store C K) (w : W.State)
      → IsCoherentAt route_schema L M req.request_uri s
      → L.Up s.coll
      → routes L M s req.request_uri ≡ none
      → (no_route W C K urls req s w).2
        ≡ responds (reply status_bad_request (error_text ("no such path: " ^ req.request_uri)))
  unfolding no_route Routes.get_route
  serve_missing req s w c up gone = elim (get_at-Gets route_schema L M req.request_uri s c) [
    | inl (v, e, now) ↦ cc
    | inr (inl (e, _)) ↦ rw e refl
    | inr (inr (e, _, down)) ↦ absurd (down up)
  ]

  pub serve_static :
      (path response : String) (req : Request) (s : Store C K) (w : W.State)
      → IsCoherentAt route_schema L M req.request_uri s
      → L.Up s.coll
      → req.request_uri ≡ path
      → routes L M s path ≡ some (static_route path response)
      → (no_route W C K urls req s w).2 ≡ responds (reply status_ok (text response))
  unfolding handle_route handle_static_route_request
  serve_static path response req s w c up here stored =
      serve_stored req s w (static_route path response) c up (rw here stored)

  -- If the store is valid and the database answers, then after POST /static has answered 200 a
  -- request whose URI is the endpoint's path is answered 200 with the expected response.
  pub no_route-post_static :
      (endpoint : StaticEndpoint) (req : Request) (s : Store C K) (w : W.State)
      → IsValid L M s
      → (post_static C K (ok endpoint) s).1.status ≡ status_ok
      → L.Up (post_static C K (ok endpoint) s).0.coll
      → req.request_uri ≡ endpoint.path
      → (no_route W C K urls req (post_static C K (ok endpoint) s).0 w).2
        ≡ responds (reply status_ok (text endpoint.expected_response))
  unfolding post_static Routes.add_static_endpoint Routes.add_route
  no_route-post_static endpoint req s w v done up here =
      let route = static_route endpoint.path endpoint.expected_response in
      elim (add-Adds route_schema L M route_laws route s) [
        | inl (_, (_, after)) ↦
            serve_static endpoint.path endpoint.expected_response req _ w
              (add-IsCoherent route_schema L M route_laws route s v.coherent req.request_uri) up
              here (rw (after endpoint.path, eq_refl endpoint.path) refl)
        | inr (bad, _) ↦ absurd (bad (post_static_ok endpoint s done))
      ]

  -- If the store is valid and the database answers, then after PUT /static has answered 204 a
  -- request whose URI is the endpoint's path is answered 200 with the new response.
  no_route-put_static :
      (endpoint : StaticEndpoint) (req : Request) (s : Store C K) (w : W.State)
      → IsValid L M s
      → (put_static C K (ok endpoint) s).1.status ≡ status_no_content
      → L.Up (put_static C K (ok endpoint) s).0.coll
      → req.request_uri ≡ endpoint.path
      → (no_route W C K urls req (put_static C K (ok endpoint) s).0 w).2
        ≡ responds (reply status_ok (text endpoint.expected_response))
  unfolding put_static Routes.update_static_endpoint
  no_route-put_static endpoint req s w v done up here =
      let route = static_route endpoint.path endpoint.expected_response in
      let next =
        update-IsValid L M route s (inl (refl, refl, refl)) (cc)
          (inl (put_static_no_content endpoint s done)) v in
      elim (update_route-Updates L M route s) [
        | inl (_, _, (old, found, kind, after)) ↦
            serve_static endpoint.path endpoint.expected_response req _ w
              (next.coherent req.request_uri) up here
              (rw (after endpoint.path, eq_refl endpoint.path)
                (ap some (
                  overwritten_of_IsPlain L M route s (inl (refl, refl, refl)) (cc) v old found
                    kind)))
        | inr (bad, _, _) ↦ absurd (bad (put_static_no_content endpoint s done))
      ]

  -- If the store is valid and the database answers, then after DELETE /static has answered 204 a
  -- request whose URI is the path is answered 400, as one to an unknown path.
  no_route-delete_static :
      (path : String) (req : Request) (s : Store C K) (w : W.State)
      → IsValid L M s
      → (delete_static C K path s).1.status ≡ status_no_content
      → L.Up (delete_static C K path s).0.coll
      → req.request_uri ≡ path
      → (no_route W C K urls req (delete_static C K path s).0 w).2
        ≡ responds (reply status_bad_request (error_text ("no such path: " ^ path)))
  unfolding Routes.remove_static_endpoint
  no_route-delete_static path req s w v done up here =
      let (nil, same) = delete_static_no_content path s done in
      let removed = remove_route-eq-remove {K = K} L path s in
      elim (remove-Removes route_schema L M path s) [
        | inl (_, after) ↦ rw same (
            serve_missing req _ w
              ((remove-IsValid L M path s (λ e h. let bad = sym nil ∙ h in cc) v).coherent
                req.request_uri)
              (rw same at up) (rw (removed, here, after path, eq_refl path) refl)
            ∙ ap (λ p. responds (reply status_bad_request (error_text ("no such path: " ^ p))))
                here)
        | inr (bad, _) ↦ absurd (bad (rw removed at nil))
      ]

-- ===== src/Server/NoRoute/Scripts.antt =====
-- internal/server/noroute_handler.go: a request to a dynamic endpoint runs its script.
use mock_server.Prelude.{◌≡◌, refl, inl, inr, String, [], ◌∷◌, eq_refl}
use mock_server.Errors.{ok}
use mock_server.Database.Documents.{Route}
use mock_server.Database.Driver.{Collection, Cache, CollectionLaws, CacheLaws}
use mock_server.Database.Store.Coherence.{add-Adds, add-IsCoherent}
use mock_server.Database.Routes
use mock_server.Database.Routes.{route_schema, dynamic_route}
use mock_server.Database.Routes.Calls.{route_laws, IsValid}
use mock_server.Server.Files.{FileStorage, FileStorageLaws, gen_unique_filename}
use mock_server.Server.Http.{DynamicEndpoint, reply, text, status_ok}
use mock_server.Util.CodeWrappers.{wrap_code_for_dyn_handle}
use mock_server.Server.DynamicRoutes.{Dynamic, fs_dyn_handle_dir, post_dynamic}
use mock_server.Server.DynamicRoutes.Uploads.{post_dynamic_ok}
use mock_server.Coderun.RunScript.{ScriptWorkers}
use mock_server.Server.NoRoute.{Request, Urls, handle_route, handle_dynamic_route_request, no_route}
use mock_server.Server.NoRoute.Answers.{serve_stored}

module _ {C : Collection} {K : Cache Route} {F : FileStorage} (L : CollectionLaws C "path")
    (M : CacheLaws K) (N : FileStorageLaws F) (W : ScriptWorkers) (urls : Urls) where
  -- If the store is valid and the database answers, then after POST /dynamic has answered 200 the
  -- file of the script holds the uploaded code in its wrapper, and a request whose URI is the
  -- endpoint's path is answered as a dynamic endpoint with that script name is.
  pub no_route-post_dynamic :
      (stamp : String) (endpoint : DynamicEndpoint) (req : Request) (s : Dynamic C K F)
      (w : W.State)
      → IsValid L M s.store
      → (post_dynamic C K F stamp (ok endpoint) s).1
        ≡ reply status_ok (text "Dynamic endpoint successfully added") ∷ []
      → L.Up (post_dynamic C K F stamp (ok endpoint) s).0.store.coll
      → req.request_uri ≡ endpoint.path
      → let after = (post_dynamic C K F stamp (ok endpoint) s).0 in
        let script = gen_unique_filename stamp "py" in
        (F.read fs_dyn_handle_dir script after.files ≡ ok (wrap_code_for_dyn_handle endpoint.code))
        × ((no_route W C K urls req after.store w).2
            ≡ (handle_dynamic_route_request W req (dynamic_route endpoint.path script) w).1)
  unfolding handle_route Routes.add_route
  no_route-post_dynamic stamp endpoint req s w v done up here =
      let route = dynamic_route endpoint.path (gen_unique_filename stamp "py") in
      let (fine, nil, same) = post_dynamic_ok L M N stamp endpoint s done in
      elim (add-Adds route_schema L M route_laws route s.store) [
        | inr (bad, _) ↦ absurd (bad nil)
        | inl (_, (_, after)) ↦ rw same (
          N.read_contents fs_dyn_handle_dir (gen_unique_filename stamp "py")
              (wrap_code_for_dyn_handle endpoint.code) _
              (N.write_contents fs_dyn_handle_dir (gen_unique_filename stamp "py")
                (wrap_code_for_dyn_handle endpoint.code) s.files fine),
          serve_stored L M W urls req _ w route
              (add-IsCoherent route_schema L M route_laws route s.store v.coherent req.request_uri)
              (rw same at up) (rw (here, after endpoint.path, eq_refl endpoint.path) refl),
        )
      ]

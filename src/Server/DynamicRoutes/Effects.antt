-- ===== src/Server/DynamicRoutes/Effects.antt =====
-- internal/server/dynamic_routes_api.go: the endpoints that are stored after an upload or an update.
use mock_server.Prelude.{◌≡◌, String, none, some, arith}
use mock_server.Errors.{ok}
use mock_server.Util.CodeWrappers.{wrap_code_for_dyn_handle}
use mock_server.Database.Documents.{Route}
use mock_server.Database.Driver.{Collection, Cache}
use mock_server.Database.Store.{Store}
use mock_server.Database.Routes
use mock_server.Server.Files.{FileStorage, gen_unique_filename}
use mock_server.Server.Http.{DynamicEndpoint}
use mock_server.Server.DynamicRoutes.{
  Dynamic, fs_dyn_handle_dir, post_dynamic, add_script, put_dynamic, rewrite_script,
}

module _ {C : Collection} {K : Cache Route} {F : FileStorage} where
  -- An upload adds the endpoint only where the script was written.
  abbrev pub stored_upload : String → DynamicEndpoint → Dynamic C K F → Store C K
  stored_upload stamp endpoint s =
      let script = gen_unique_filename stamp "py" in
      elim ((F.write fs_dyn_handle_dir script (wrap_code_for_dyn_handle endpoint.code) s.files).1) [
        | some e ↦ s.store
        | none ↦ (Routes.add_dynamic_endpoint C K endpoint.path script s.store).0
      ]

  pub post_dynamic-stored_upload :
      (stamp : String) (endpoint : DynamicEndpoint) (s : Dynamic C K F)
      → (post_dynamic C K F stamp (ok endpoint) s).0.store ≡ stored_upload stamp endpoint s
  unfolding post_dynamic add_script
  post_dynamic-stored_upload stamp endpoint s = ground arith

  -- An update reads the endpoint and stores nothing under its path.
  pub put_dynamic-get_route :
      (endpoint : DynamicEndpoint) (s : Dynamic C K F)
      → (put_dynamic C K F (ok endpoint) s).0.store
        ≡ (Routes.get_dynamic_endpoint_script_name C K endpoint.path s.store).0
  unfolding put_dynamic rewrite_script
  put_dynamic-get_route endpoint s = ground arith

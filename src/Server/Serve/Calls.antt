-- ===== src/Server/Serve/Calls.antt =====
-- internal/server over internal/database/mongo.go: the route functions that each request calls, in order.
use mock_server.Prelude.{
  ◌≡◌, refl, inl, inr, String, List, [], ◌∷◌, Option, none, some, ◌==◌, if◌then◌else◌, arith,
}
use mock_server.Errors.{Result, ok, err, Result-cases}
use mock_server.Util.CodeWrappers.{wrap_code_for_dyn_handle}
use mock_server.Database.Routes
use mock_server.Database.Routes.Calls.{
  Call, add_static, update_static, add_proxy, update_proxy, add_dynamic, remove, get, exec,
  exec_all,
}
use mock_server.Server.Files.{gen_unique_filename}
use mock_server.Server.Router.{
  Handler, ping, get_static, get_expected_response, post_static, put_static, delete_static,
  get_dynamic, get_code, post_dynamic, put_dynamic, delete_dynamic, get_proxy, get_proxy_url,
  post_proxy, put_proxy, delete_proxy, get_pools, get_config, get_read, get_write, post_read,
  post_write, post_pool, delete_pool, get_esb, get_esb_code, post_esb, post_esb_task, delete_esb,
}
use mock_server.Server.StaticRoutes
use mock_server.Server.ProxyRoutes
use mock_server.Server.DynamicRoutes
use mock_server.Server.DynamicRoutes.{fs_dyn_handle_dir}
use mock_server.Server.DynamicRoutes.Effects.{post_dynamic-stored_upload, put_dynamic-get_route}
use mock_server.Server.NoRoute
use mock_server.Server.Gin.{HttpRequest, Selection, handled, unmatched, answered}
use mock_server.Server.Serve.{Externals, State, run_handler, selected}

abbrev pub on_ok {ℓ} : {A : Type ℓ} → Result A → (A → List Call) → List Call
on_ok (err e) f = []
on_ok (ok a) f = f a

abbrev pub on_nil {ℓ} : {A : Type ℓ} → Option A → List Call → List Call
on_nil none cs = cs
on_nil (some e) cs = []

abbrev pub on_named : String → Call → List Call
on_named path c = if path == "" then [] else c ∷ []

module _ (X : Externals) where
  abbrev pub calls : Handler → HttpRequest → State X → List Call
  calls get_expected_response req s = on_named (req.query "path") (get (req.query "path"))
  calls post_static req s =
      on_ok req.static_endpoint (λ e. add_static e.path e.expected_response ∷ [])
  calls put_static req s =
      on_ok req.static_endpoint (λ e. update_static e.path e.expected_response ∷ [])
  calls delete_static req s = on_named (req.query "path") (remove (req.query "path"))
  calls get_code req s = on_named (req.query "path") (get (req.query "path"))
  calls post_dynamic req s = on_ok req.dynamic_endpoint (λ e.
      let script = gen_unique_filename req.stamp "py" in
      on_nil (X.files.write fs_dyn_handle_dir script (wrap_code_for_dyn_handle e.code) s.fs).1
        (add_dynamic e.path script ∷ []))
  calls put_dynamic req s = on_ok req.dynamic_endpoint (λ e. get e.path ∷ [])
  calls delete_dynamic req s = on_named (req.query "path") (remove (req.query "path"))
  calls get_proxy_url req s = on_named (req.query "path") (get (req.query "path"))
  calls post_proxy req s =
      on_ok req.proxy_endpoint
        (λ e. on_ok (X.urls.parse_request_uri e.proxy_url) (λ u. add_proxy e.path e.proxy_url ∷ []))
  calls put_proxy req s = on_ok req.proxy_endpoint (λ e.
      on_ok (X.urls.parse_request_uri e.proxy_url) (λ u. update_proxy e.path e.proxy_url ∷ []))
  calls delete_proxy req s = on_named (req.query "path") (remove (req.query "path"))
  calls _ req s = []

  abbrev pub selected_calls : Selection → HttpRequest → State X → List Call
  selected_calls (handled h) req s = calls h req s
  selected_calls unmatched req s = get req.raw.request_uri ∷ []
  selected_calls (answered r) req s = []

  -- A handler of the API changes the stored endpoints by these calls and by nothing else.
  run_handler-calls :
      (h : Handler) (req : HttpRequest) (s : State X)
      → (run_handler X h req s).0.routes
        ≡ exec_all X.routes_coll X.routes_cache s.routes (calls h req s)
  unfolding run_handler exec exec_all StaticRoutes.get_static StaticRoutes.get_expected_response
      StaticRoutes.post_static StaticRoutes.put_static StaticRoutes.delete_static
      Routes.remove_static_endpoint Routes.remove_proxy_endpoint Routes.remove_dynamic_endpoint
      Routes.get_static_endpoint_response Routes.get_proxy_endpoint_proxy_url
      Routes.get_dynamic_endpoint_script_name Routes.update_proxy_endpoint DynamicRoutes.get_dynamic
      DynamicRoutes.get_code DynamicRoutes.delete_dynamic ProxyRoutes.get_proxy
      ProxyRoutes.get_proxy_url ProxyRoutes.post_proxy ProxyRoutes.put_proxy
      ProxyRoutes.delete_proxy DynamicRoutes.post_dynamic DynamicRoutes.put_dynamic
  run_handler-calls get_expected_response req s = ground arith
  run_handler-calls post_static req s = ground arith
  run_handler-calls put_static req s = ground arith
  run_handler-calls delete_static req s = ground arith
  run_handler-calls get_code req s = ground arith
  run_handler-calls post_dynamic req s = elim (Result-cases req.dynamic_endpoint) [
    | inl (e, h) ↦ rw h refl
    | inr (e, h) ↦ rw h (
        ground (
          arith,
          post_dynamic-stored_upload req.stamp e (record { store = s.routes; files = s.fs }),
        ))
  ]
  run_handler-calls put_dynamic req s = elim (Result-cases req.dynamic_endpoint) [
    | inl (e, h) ↦ rw h refl
    | inr (e, h) ↦ rw h (put_dynamic-get_route e (record { store = s.routes; files = s.fs }))
  ]
  run_handler-calls delete_dynamic req s = ground arith
  run_handler-calls get_proxy_url req s = ground arith
  run_handler-calls post_proxy req s = ground arith
  run_handler-calls put_proxy req s = ground arith
  run_handler-calls delete_proxy req s = ground arith
  run_handler-calls ping req s = refl
  run_handler-calls get_static req s = refl
  run_handler-calls get_dynamic req s = refl
  run_handler-calls get_proxy req s = refl
  run_handler-calls get_pools req s = refl
  run_handler-calls get_config req s = refl
  run_handler-calls get_read req s = refl
  run_handler-calls get_write req s = refl
  run_handler-calls post_read req s = refl
  run_handler-calls post_write req s = refl
  run_handler-calls post_pool req s = refl
  run_handler-calls delete_pool req s = refl
  run_handler-calls get_esb req s = refl
  run_handler-calls get_esb_code req s = refl
  run_handler-calls post_esb req s = refl
  run_handler-calls post_esb_task req s = refl
  run_handler-calls delete_esb req s = refl

  -- A request changes the stored endpoints by these calls and by nothing else.
  pub selected-selected_calls :
      (selection : Selection) (req : HttpRequest) (s : State X)
      → (selected X selection req s).0.routes
        ≡ exec_all X.routes_coll X.routes_cache s.routes (selected_calls selection req s)
  unfolding selected NoRoute.no_route exec exec_all
  selected-selected_calls (handled h) req s = run_handler-calls h req s
  selected-selected_calls unmatched req s = refl
  selected-selected_calls (answered r) req s = refl

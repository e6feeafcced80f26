-- ===== src/Server/Serve/Settled.antt =====
-- internal/server over internal/database/mongo.go: which requests leave no doubt about what is stored.
use mock_server.Prelude.{
  ◌≡◌, ◌≢◌, ◌⊎◌, inl, inr, refl, String, List, [], ◌∷◌, Option, none, some, ◌==◌, false, Bool-cases,
  All,
}
use mock_server.Errors.{Result, ok, err}
use mock_server.Util.CodeWrappers.{wrap_code_for_dyn_handle}
use mock_server.Database.Routes
use mock_server.Database.Routes.Calls.{Call, IsSettled, AllSettled}
use mock_server.Server.Files.{gen_unique_filename}
use mock_server.Server.DynamicRoutes
use mock_server.Server.DynamicRoutes.{fs_dyn_handle_dir}
use mock_server.Server.StaticRoutes
use mock_server.Server.StaticRoutes.{put_static_known}
use mock_server.Server.ProxyRoutes
use mock_server.Server.Http.{Response, status_internal_server_error}
use mock_server.Server.Router.{
  Handler, ping, get_static, get_expected_response, post_static, put_static, delete_static,
  get_dynamic, get_code, post_dynamic, put_dynamic, delete_dynamic, get_proxy, get_proxy_url,
  post_proxy, put_proxy, delete_proxy, get_pools, get_config, get_read, get_write, post_read,
  post_write, post_pool, delete_pool, get_esb, get_esb_code, post_esb, post_esb_task, delete_esb,
}
use mock_server.Server.Router.Selection.{endpoint_of}
use mock_server.Server.Gin.{HttpRequest}
use mock_server.Server.Serve.{Externals, State, run_handler, on_routes, on_dynamic}
use mock_server.Server.Serve.Calls.{calls, on_ok, on_nil, on_named}

-- None of the responses is a 500.
abbrev pub HasNoFailure : List Response → Type 0
HasNoFailure rs = All (λ r. r.status ≢ status_internal_server_error) rs

-- PUT and DELETE
abbrev pub IsChange : String → Type 0
IsChange method = (method ≡ "PUT") ⊎ (method ≡ "DELETE")

module _ (X : Externals) where
  abbrev Settles : State X → List Call → Type 0
  Settles s cs = AllSettled X.routes_coll X.routes_cache s.routes cs

  Settles-on_named :
      (s : State X) (path : String) (c : Call)
      → (path == "" ≡ false → IsSettled X.routes_coll X.routes_cache s.routes c)
      → Settles s (on_named path c)
  Settles-on_named s path c k = elim (Bool-cases (path == "")) [
    | inl e ↦ rw e tt
    | inr e ↦ rw e (k e, tt)
  ]

  Settles-on_ok :
      {A : Type 0} (s : State X) (r : Result A) (f : A → List Call)
      → ((a : A) → r ≡ ok a → Settles s (f a))
      → Settles s (on_ok r f)
  Settles-on_ok s (err e) f k = tt
  Settles-on_ok s (ok a) f k = k a refl

  Settles-on_nil :
      {A : Type 0} (s : State X) (q : Option A) (c : Call)
      → IsSettled X.routes_coll X.routes_cache s.routes c
      → Settles s (on_nil q (c ∷ []))
  Settles-on_nil s none c k = (k, tt)
  Settles-on_nil s (some a) c k = tt

  -- A handler of PUT or DELETE that answers no 500 leaves no doubt; one of POST or GET never does.
  pub calls-AllSettled :
      (h : Handler) (req : HttpRequest) (s : State X)
      → (IsChange (endpoint_of h).0 → HasNoFailure (run_handler X h req s).1)
      → AllSettled X.routes_coll X.routes_cache s.routes (calls X h req s)
  unfolding run_handler on_routes on_dynamic StaticRoutes.delete_static DynamicRoutes.delete_dynamic
      ProxyRoutes.delete_proxy Routes.remove_static_endpoint Routes.remove_dynamic_endpoint
      Routes.remove_proxy_endpoint
  calls-AllSettled ping req s f = tt
  calls-AllSettled get_static req s f = tt
  calls-AllSettled get_expected_response req s f = Settles-on_named s (req.query "path") _ (λ e. tt)
  calls-AllSettled post_static req s f = Settles-on_ok s req.static_endpoint _ (λ e h. (tt, tt))
  calls-AllSettled put_static req s f =
      Settles-on_ok s req.static_endpoint _
        (λ e h. let fine = rw h at (f (inl refl)) in (put_static_known e s.routes fine.0, tt))
  calls-AllSettled delete_static req s f =
      Settles-on_named s (req.query "path") _
        (λ e d bad. let fine = rw (e, bad) at (f (inr refl)) in fine.0 refl)
  calls-AllSettled get_dynamic req s f = tt
  calls-AllSettled get_code req s f = Settles-on_named s (req.query "path") _ (λ e. tt)
  calls-AllSettled post_dynamic req s f = Settles-on_ok s req.dynamic_endpoint _ (λ e h.
      Settles-on_nil s
        (X.files.write fs_dyn_handle_dir (gen_unique_filename req.stamp "py")
          (wrap_code_for_dyn_handle e.code) s.fs).1
        _ tt)
  calls-AllSettled put_dynamic req s f = Settles-on_ok s req.dynamic_endpoint _ (λ e h. (tt, tt))
  calls-AllSettled delete_dynamic req s f =
      Settles-on_named s (req.query "path") _
        (λ e d bad. let fine = rw (e, bad) at (f (inr refl)) in fine.0 refl)
  calls-AllSettled get_proxy req s f = tt
  calls-AllSettled get_proxy_url req s f = Settles-on_named s (req.query "path") _ (λ e. tt)
  calls-AllSettled post_proxy req s f =
      Settles-on_ok s req.proxy_endpoint _
        (λ e h. Settles-on_ok s (X.urls.parse_request_uri e.proxy_url) _ (λ u parsed. (tt, tt)))
  calls-AllSettled put_proxy req s f =
      Settles-on_ok s req.proxy_endpoint _
        (λ e h. Settles-on_ok s (X.urls.parse_request_uri e.proxy_url) _ (λ u parsed. (tt, tt)))
  calls-AllSettled delete_proxy req s f =
      Settles-on_named s (req.query "path") _
        (λ e d bad. let fine = rw (e, bad) at (f (inr refl)) in fine.0 refl)
  calls-AllSettled get_pools req s f = tt
  calls-AllSettled get_config req s f = tt
  calls-AllSettled get_read req s f = tt
  calls-AllSettled get_write req s f = tt
  calls-AllSettled post_read req s f = tt
  calls-AllSettled post_write req s f = tt
  calls-AllSettled post_pool req s f = tt
  calls-AllSettled delete_pool req s f = tt
  calls-AllSettled get_esb req s f = tt
  calls-AllSettled get_esb_code req s f = tt
  calls-AllSettled post_esb req s f = tt
  calls-AllSettled post_esb_task req s f = tt
  calls-AllSettled delete_esb req s f = tt

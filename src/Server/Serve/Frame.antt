-- ===== src/Server/Serve/Frame.antt =====
-- internal/server over internal/database: what requests leave as it was among the stored endpoints.
use mock_server.Prelude.{
  ◌≡◌, ◌≢◌, ◌⊎◌, inl, inr, refl, ap, sym, ◌∙◌, String, List, [], ◌∷◌, Option, none, some, ◌==◌,
  arith, All, eq_iff, Bool-cases,
}
use mock_server.Errors.{Result, ok, err}
use mock_server.Database.Documents.{Route}
use mock_server.Database.Driver.{Collection, Cache, CollectionLaws, CacheLaws}
use mock_server.Database.Store
use mock_server.Database.Store.{Store}
use mock_server.Database.Store.Coherence.{stored, add-Adds, remove-Removes}
use mock_server.Database.Routes
use mock_server.Database.Routes.{route_schema, static_route, proxy_route, dynamic_route}
use mock_server.Database.Routes.Update.{routes, update_route-Updates}
use mock_server.Database.Routes.Calls.{
  route_laws, Call, add_static, update_static, add_proxy, update_proxy, add_dynamic, update_dynamic,
  remove, get, exec, exec_all, call_path, IsProxyUpdate, remove_route-eq-remove,
}
use mock_server.Server.Router.{
  Handler, ping, get_static, get_expected_response, post_static, put_static, delete_static,
  get_dynamic, get_code, post_dynamic, put_dynamic, delete_dynamic, get_proxy, get_proxy_url,
  post_proxy, put_proxy, delete_proxy, get_pools, get_config, get_read, get_write, post_read,
  post_write, post_pool, delete_pool, get_esb, get_esb_code, post_esb, post_esb_task, delete_esb,
}
use mock_server.Server.Files.{gen_unique_filename}
use mock_server.Server.Gin.{HttpRequest}
use mock_server.Server.Serve.{Externals, State}
use mock_server.Server.Serve.Calls.{calls, on_ok, on_nil, on_named}

module _ {C : Collection} {K : Cache Route} (L : CollectionLaws C "path") (M : CacheLaws K) where
  add-frame :
      (r : Route) (s : Store C K) (path : String)
      → r.path ≢ path
      → routes L M (Routes.add_route C K r s).0 path ≡ routes L M s path
  unfolding Routes.add_route
  add-frame r s path other = elim (add-Adds route_schema L M route_laws r s) [
    | inl (_, (_, after)) ↦ ground (arith, after path, eq_iff r.path path)
    | inr (_, inl after) ↦ after path
    | inr (_, inr (_, (_, after))) ↦ ground (arith, after path, eq_iff r.path path)
  ]

  update-frame :
      (r : Route) (s : Store C K) (path : String)
      → r.path ≢ path
      → routes L M (Routes.update_route C K r s).0 path ≡ routes L M s path
  update-frame r s path other = elim (update_route-Updates L M r s) [
    | inl (_, _, (old, _, _, after)) ↦ ground (arith, after path, eq_iff r.path path)
    | inr (_, _, inl after) ↦ after path
    | inr (_, _, inr (_, (old, _, _, after))) ↦ ground (arith, after path, eq_iff r.path path)
  ]

  remove-frame :
      (p : String) (s : Store C K) (path : String)
      → p ≢ path
      → routes L M (Routes.remove_route C K p s).0 path ≡ routes L M s path
  remove-frame p s path other =
      rw (remove_route-eq-remove {K = K} L p s) (elim (remove-Removes route_schema L M p s) [
        | inl (_, after) ↦ ground (arith, after path, eq_iff p path)
        | inr (_, inl after) ↦ after path
        | inr (_, inr after) ↦ ground (arith, after path, eq_iff p path)
      ])

  exec-frame :
      (s : Store C K) (c : Call) (path : String)
      → call_path c ≢ some path
      → routes L M (exec C K s c) path ≡ routes L M s path
  unfolding exec Routes.get_route stored Routes.update_proxy_endpoint Store.get
  exec-frame s (add_static p v) path n = add-frame _ s path (λ e. n (ap some e))
  exec-frame s (update_static p v) path n = update-frame _ s path (λ e. n (ap some e))
  exec-frame s (add_proxy p v) path n = add-frame _ s path (λ e. n (ap some e))
  exec-frame s (update_proxy p v) path n = update-frame _ s path (λ e. n (ap some e))
  exec-frame s (add_dynamic p v) path n = add-frame _ s path (λ e. n (ap some e))
  exec-frame s (update_dynamic p v) path n = update-frame _ s path (λ e. n (ap some e))
  exec-frame s (remove p) path n = remove-frame p s path (λ e. n (ap some e))
  exec-frame s (get p) path n = refl

  -- Calls that write other paths leave the endpoint of a path as it is.
  pub exec_all-frame :
      (s : Store C K) (cs : List Call) (path : String)
      → All (λ c. call_path c ≢ some path) cs
      → routes L M (exec_all C K s cs) path ≡ routes L M s path
  unfolding exec_all
  exec_all-frame s [] path n = refl
  exec_all-frame s (c ∷ cs) path n =
      exec_all-frame (exec C K s c) cs path n.1 ∙ exec-frame s c path n.0

abbrev path_of {ℓ} : {A : Type ℓ} → (A → String) → Result A → Option String
path_of f (ok a) = some (f a)
path_of f (err e) = none

-- The path of the endpoint that a request to the API creates, changes or deletes.
abbrev pub written_path : Option Handler → HttpRequest → Option String
written_path (some post_static) req = path_of (λ e. e.path) req.static_endpoint
written_path (some put_static) req = path_of (λ e. e.path) req.static_endpoint
written_path (some delete_static) req = some (req.query "path")
written_path (some post_dynamic) req = path_of (λ e. e.path) req.dynamic_endpoint
written_path (some delete_dynamic) req = some (req.query "path")
written_path (some post_proxy) req = path_of (λ e. e.path) req.proxy_endpoint
written_path (some put_proxy) req = path_of (λ e. e.path) req.proxy_endpoint
written_path (some delete_proxy) req = some (req.query "path")
written_path _ req = none

module _ (P : Call → Type 0) where
  All-on_ok {ℓ} :
      {A : Type ℓ} (r : Result A) (f : A → List Call)
      → ((a : A) → r ≡ ok a → All P (f a))
      → All P (on_ok r f)
  All-on_ok (err e) f h = tt
  All-on_ok (ok a) f h = h a refl

  All-on_nil {ℓ} : {A : Type ℓ} (o : Option A) (cs : List Call) → All P cs → All P (on_nil o cs)
  All-on_nil none cs h = h
  All-on_nil (some e) cs h = tt

  All-on_named : (path : String) (c : Call) → P c → All P (on_named path c)
  All-on_named path c h = elim (Bool-cases (path == "")) [ inl e ↦ rw e tt | inr e ↦ rw e (h, tt) ]

module _ (X : Externals) (P : Call → Type 0) where
  -- Whatever holds of every call that writes no path, or the one that the request names, and updates
  -- no proxy endpoint but for PUT /proxy, holds of a handler's calls.
  calls-All :
      (h : Handler) (req : HttpRequest) (s : State X)
      → ((c : Call)
          → (call_path c ≡ none) ⊎ (call_path c ≡ written_path (some h) req)
          → (IsProxyUpdate c → h ≡ put_proxy)
          → P c)
      → All P (calls X h req s)
  calls-All ping req s k = tt
  calls-All get_static req s k = tt
  calls-All get_expected_response req s k =
      All-on_named P (req.query "path") _ (k _ (inl refl) (λ i. absurd i))
  calls-All post_static req s k =
      All-on_ok P req.static_endpoint _
        (λ e h. (k _ (inr (ap (path_of (λ d. d.path)) (sym h))) (λ i. absurd i), tt))
  calls-All put_static req s k =
      All-on_ok P req.static_endpoint _
        (λ e h. (k _ (inr (ap (path_of (λ d. d.path)) (sym h))) (λ i. absurd i), tt))
  calls-All delete_static req s k =
      All-on_named P (req.query "path") _ (k _ (inr refl) (λ i. absurd i))
  calls-All get_dynamic req s k = tt
  calls-All get_code req s k = All-on_named P (req.query "path") _ (k _ (inl refl) (λ i. absurd i))
  calls-All post_dynamic req s k = All-on_ok P req.dynamic_endpoint _ (λ e h.
      let script = gen_unique_filename req.stamp "py" in
      All-on_nil P _ (add_dynamic e.path script ∷ [])
        (k _ (inr (ap (path_of (λ d. d.path)) (sym h))) (λ i. absurd i), tt))
  calls-All put_dynamic req s k =
      All-on_ok P req.dynamic_endpoint _ (λ e h. (k _ (inl refl) (λ i. absurd i), tt))
  calls-All delete_dynamic req s k =
      All-on_named P (req.query "path") _ (k _ (inr refl) (λ i. absurd i))
  calls-All get_proxy req s k = tt
  calls-All get_proxy_url req s k =
      All-on_named P (req.query "path") _ (k _ (inl refl) (λ i. absurd i))
  calls-All post_proxy req s k = All-on_ok P req.proxy_endpoint _ (λ e h.
      All-on_ok P (X.urls.parse_request_uri e.proxy_url) _
        (λ u parsed. (k _ (inr (ap (path_of (λ d. d.path)) (sym h))) (λ i. absurd i), tt)))
  calls-All put_proxy req s k = All-on_ok P req.proxy_endpoint _ (λ e h.
      All-on_ok P (X.urls.parse_request_uri e.proxy_url) _
        (λ u parsed. (k _ (inr (ap (path_of (λ d. d.path)) (sym h))) (λ i. refl), tt)))
  calls-All delete_proxy req s k =
      All-on_named P (req.query "path") _ (k _ (inr refl) (λ i. absurd i))
  calls-All get_pools req s k = tt
  calls-All get_config req s k = tt
  calls-All get_read req s k = tt
  calls-All get_write req s k = tt
  calls-All post_read req s k = tt
  calls-All post_write req s k = tt
  calls-All post_pool req s k = tt
  calls-All delete_pool req s k = tt
  calls-All get_esb req s k = tt
  calls-All get_esb_code req s k = tt
  calls-All post_esb req s k = tt
  calls-All post_esb_task req s k = tt
  calls-All delete_esb req s k = tt

module _ (X : Externals) where
  -- A handler's calls write only the path that the request names.
  pub calls-written_path :
      (h : Handler) (req : HttpRequest) (s : State X) (path : String)
      → written_path (some h) req ≢ some path
      → All (λ c. call_path c ≢ some path) (calls X h req s)
  calls-written_path h req s path n =
      calls-All X (λ c. call_path c ≢ some path) h req s
        (λ c w _. elim w [ inl e ↦ λ q. cc | inr e ↦ λ q. n (sym e ∙ q) ])

  pub calls_updates_no_proxy :
      (h : Handler) (req : HttpRequest) (s : State X)
      → h ≢ put_proxy
      → All (λ c. ¬ IsProxyUpdate c) (calls X h req s)
  calls_updates_no_proxy h req s n =
      calls-All X (λ c. ¬ IsProxyUpdate c) h req s (λ c _ u i. n (u i))

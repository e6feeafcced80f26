-- ===== src/Server/DynamicRoutes/Uploads.antt =====
-- internal/server/dynamic_routes_api.go: the code of an endpoint reads back as it was uploaded.
use mock_server.Prelude.{
  ◌≡◌, ◌≢◌, inl, inr, refl, String, false, Option, none, some, ◌==◌, [], ◌∷◌, arith, eq_iff,
  eq_refl, Option-cases,
}
use mock_server.Errors.{Error, ok}
use mock_server.Util.Text.{◌^◌}
use mock_server.Util.CodeWrappers.{wrap_code_for_dyn_handle, unwrap-wrap_code_for_dyn_handle}
use mock_server.Database.Documents.{Route}
use mock_server.Database.Driver.{Collection, Cache, CollectionLaws, CacheLaws}
use mock_server.Database.Store.{Store}
use mock_server.Database.Store.Coherence.{IsCoherent, add-Adds, add-IsCoherent, get-Gets}
use mock_server.Database.Routes
use mock_server.Database.Routes.{route_schema, dynamic_route, field_of_type}
use mock_server.Database.Routes.Update.{routes}
use mock_server.Database.Routes.Calls.{route_laws}
use mock_server.Server.Files.{FileStorage, FileStorageLaws, gen_unique_filename}
use mock_server.Server.Http.{DynamicEndpoint, reply, text, status_ok}
use mock_server.Server.DynamicRoutes.{
  Dynamic, fs_dyn_handle_dir, post_dynamic, get_code, add_script, script_reply,
}

module _ {C : Collection} {K : Cache Route} {F : FileStorage} (L : CollectionLaws C "path")
    (M : CacheLaws K) (N : FileStorageLaws F) where
  -- An endpoint that is stored with a script that is there.
  get_code_stored :
      (path script code : String) (s : Dynamic C K F)
      → path ≢ ""
      → IsCoherent route_schema L M s.store
      → L.Up s.store.coll
      → routes L M s.store path ≡ some (dynamic_route path script)
      → N.contents s.files fs_dyn_handle_dir script ≡ some (wrap_code_for_dyn_handle code)
      → (get_code C K F path s).1 ≡ reply status_ok (text (code ^ "\n")) ∷ []
  unfolding get_code script_reply Routes.get_dynamic_endpoint_script_name Routes.get_route
  get_code_stored path script code s named c up here there =
      elim (get-Gets route_schema L M path s.store c) [
        | inl (v, e, now) ↦
            let same : v ≡ dynamic_route path script = cc in
            let off : (path == "") ≡ false = ground (arith, eq_iff path "") in
            rw
              (
                off,
                e,
                same,
                N.read_contents fs_dyn_handle_dir script (wrap_code_for_dyn_handle code) s.files
                    there,
                unwrap-wrap_code_for_dyn_handle code,
              )
              refl
        | inr (inl (e, gone)) ↦ cc
        | inr (inr (e, _, down)) ↦ absurd (down up)
      ]

  abbrev pub written : String → DynamicEndpoint → Dynamic C K F → F.State × Option Error
  written stamp endpoint s =
      F.write fs_dyn_handle_dir (gen_unique_filename stamp "py")
        (wrap_code_for_dyn_handle endpoint.code) s.files

  abbrev pub added : String → DynamicEndpoint → Dynamic C K F → Store C K × Option Error
  added stamp endpoint s =
      Routes.add_route C K (dynamic_route endpoint.path (gen_unique_filename stamp "py")) s.store

  -- 200 is answered only where the file is written and the route is added.
  pub post_dynamic_ok :
      (stamp : String) (endpoint : DynamicEndpoint) (s : Dynamic C K F)
      → (post_dynamic C K F stamp (ok endpoint) s).1
        ≡ reply status_ok (text "Dynamic endpoint successfully added") ∷ []
      → ((written stamp endpoint s).1 ≡ none)
        × ((added stamp endpoint s).1 ≡ none)
        × ((post_dynamic C K F stamp (ok endpoint) s).0
            ≡ record { store = (added stamp endpoint s).0; files = (written stamp endpoint s).0 })
  unfolding post_dynamic Routes.add_dynamic_endpoint add_script
  post_dynamic_ok stamp endpoint s done = elim (Option-cases (written stamp endpoint s).1) [
    | inr (e, bad) ↦ ground arith
    | inl fine ↦ elim (Option-cases (added stamp endpoint s).1) [
      | inr (e, bad) ↦ ground arith
      | inl nil ↦ (fine, nil, rw fine refl)
    ]
  ]

  -- If the path is not empty, the cache agrees with the collection and the database answers, then
  -- after POST /dynamic has answered 200 GET /dynamic/code answers 200 with the code that was
  -- uploaded and a newline more.
  pub get_code-post_dynamic :
      (stamp : String) (endpoint : DynamicEndpoint) (s : Dynamic C K F)
      → endpoint.path ≢ ""
      → IsCoherent route_schema L M s.store
      → (post_dynamic C K F stamp (ok endpoint) s).1
        ≡ reply status_ok (text "Dynamic endpoint successfully added") ∷ []
      → L.Up (post_dynamic C K F stamp (ok endpoint) s).0.store.coll
      → (get_code C K F endpoint.path (post_dynamic C K F stamp (ok endpoint) s).0).1
        ≡ reply status_ok (text (endpoint.code ^ "\n")) ∷ []
  unfolding Routes.add_route
  get_code-post_dynamic stamp endpoint s named c done up =
      let script = gen_unique_filename stamp "py" in
      let (fine, nil, same) = post_dynamic_ok stamp endpoint s done in
      elim (add-Adds route_schema L M route_laws (dynamic_route endpoint.path script) s.store) [
        | inr (bad, _) ↦ absurd (bad nil)
        | inl (_, (_, after)) ↦ rw same (
            get_code_stored endpoint.path script endpoint.code _ named
              (add-IsCoherent route_schema L M route_laws (dynamic_route endpoint.path script)
                s.store c)
              (rw same at up) (rw (after endpoint.path, eq_refl endpoint.path) refl)
              (N.write_contents fs_dyn_handle_dir script (wrap_code_for_dyn_handle endpoint.code)
                s.files fine))
      ]

  -- If an endpoint stands with the script name of a second, the cache agrees with the collection
  -- and the database answers, then after another endpoint has been uploaded in that second GET
  -- /dynamic/code answers for the first one with the code of the other.
  get_code-post_dynamic_same_second :
      (stamp path : String) (endpoint : DynamicEndpoint) (s : Dynamic C K F)
      → path ≢ ""
      → endpoint.path ≢ path
      → IsCoherent route_schema L M s.store
      → routes L M s.store path ≡ some (dynamic_route path (gen_unique_filename stamp "py"))
      → (post_dynamic C K F stamp (ok endpoint) s).1
        ≡ reply status_ok (text "Dynamic endpoint successfully added") ∷ []
      → L.Up (post_dynamic C K F stamp (ok endpoint) s).0.store.coll
      → (get_code C K F path (post_dynamic C K F stamp (ok endpoint) s).0).1
        ≡ reply status_ok (text (endpoint.code ^ "\n")) ∷ []
  unfolding Routes.add_route
  get_code-post_dynamic_same_second stamp path endpoint s named other c first done up =
      let script = gen_unique_filename stamp "py" in
      let (fine, nil, same) = post_dynamic_ok stamp endpoint s done in
      let apart : (endpoint.path == path) ≡ false = ground (arith, eq_iff endpoint.path path) in
      elim (add-Adds route_schema L M route_laws (dynamic_route endpoint.path script) s.store) [
        | inr (bad, _) ↦ absurd (bad nil)
        | inl (_, (_, after)) ↦ rw same (
            get_code_stored path script endpoint.code _ named
              (add-IsCoherent route_schema L M route_laws (dynamic_route endpoint.path script)
                s.store c)
              (rw same at up) (rw (after path, apart) first)
              (N.write_contents fs_dyn_handle_dir script (wrap_code_for_dyn_handle endpoint.code)
                s.files fine))
      ]

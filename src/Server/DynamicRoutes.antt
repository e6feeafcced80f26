-- ===== src/Server/DynamicRoutes.antt =====
-- internal/server/dynamic_routes_api.go: the handlers of /api/routes/dynamic.
-- A handler takes what `c.Bind` and `c.Query` return, as in Server/StaticRoutes.antt, and the time stamp
-- that `GenUniqueFilename` reads off the clock. It returns every response that it hands to `c.JSON`.
pub mod Uploads
pub mod Effects
use mock_server.Prelude.{String, Option, none, some, List, [], ◌∷◌, ◌==◌, if◌then◌else◌}
use mock_server.Errors.{
  Error, no_such_path, duplicate_key, bad_route_type, panicked, Result, ok, err,
}
use mock_server.Util.CodeWrappers.{wrap_code_for_dyn_handle, unwrap_code_for_dyn_handle}
use mock_server.Database.Documents.{Route}
use mock_server.Database.Driver.{Collection, Cache}
use mock_server.Database.Store.{Store}
use mock_server.Database.Routes
use mock_server.Server.Files.{FileStorage, gen_unique_filename}
use mock_server.Server.Http.{
  text, error_text, error_of, endpoints, Response, reply, status_ok, status_no_content,
  status_bad_request, status_not_found, status_conflict, status_internal_server_error,
  DynamicEndpoint,
}

abbrev pub fs_dyn_handle_dir : String
fs_dyn_handle_dir = "dyn_handle"

list_reply : Result (List String) → Response
list_reply (ok paths) = reply status_ok (endpoints paths)
list_reply (err e) = reply status_internal_server_error (error_of e)

-- `none`: UnwrapCodeForDynHandle panicked.
code_reply : Option String → Response
code_reply (some code) = reply status_ok (text code)
code_reply none = reply status_internal_server_error (error_of panicked)

script_error_reply : Error → Response
script_error_reply no_such_path =
    reply status_not_found (error_text "Received path was not created before")
script_error_reply bad_route_type =
    reply status_not_found (error_text "Received path was not created before")
script_error_reply e = reply status_internal_server_error (error_of e)

post_reply : Option Error → Response
post_reply none = reply status_ok (text "Dynamic endpoint successfully added")
post_reply (some duplicate_key) =
    reply status_conflict (error_text "The same endpoint already exists")
post_reply (some e) = reply status_internal_server_error (error_of e)

put_error_reply : Error → Response
put_error_reply no_such_path =
    reply status_not_found (error_text "Received path was not created before")
put_error_reply bad_route_type =
    reply status_not_found (error_text "Received path has different route type")
put_error_reply e = reply status_internal_server_error (error_of e)

delete_reply : Option Error → Response
delete_reply none = reply status_no_content (text "Dynamic endpoint successfully removed")
delete_reply (some e) = reply status_internal_server_error (error_of e)

module _ (C : Collection) (K : Cache Route) (F : FileStorage) where
  pub record Dynamic : Type 0 where
    pub store : Store C K
    pub files : F.State

  -- GET /dynamic
  unfoldable pub get_dynamic : Dynamic → Dynamic × List Response
  unfolding list_reply
  get_dynamic s = (s, list_reply (Routes.list_all_dynamic_endpoint_paths C K s.store) ∷ [])

  read_reply : Result String → Response
  unfolding code_reply
  read_reply (err e) = reply status_internal_server_error (error_of e)
  read_reply (ok code) = code_reply (unwrap_code_for_dyn_handle code)

  script_reply : Dynamic → Result String → Response
  unfolding read_reply script_error_reply
  script_reply s (err e) = script_error_reply e
  script_reply s (ok script) = read_reply (F.read fs_dyn_handle_dir script s.files)

  -- GET /dynamic/code?path=
  unfoldable pub get_code : String → Dynamic → Dynamic × List Response
  unfolding script_reply
  get_code path s =
      if path == ""
      then (s, reply status_bad_request (error_text "specify path param") ∷ [])
      else (let (store, r) = Routes.get_dynamic_endpoint_script_name C K path s.store in
          let s' : Dynamic = record s { store = store } in (s', script_reply s' r ∷ []))

  add_script : DynamicEndpoint → String → Dynamic → F.State × Option Error → Dynamic × List Response
  unfolding post_reply
  add_script endpoint script s (files, some e) =
      (record s { files = files }, reply status_internal_server_error (error_of e) ∷ [])
  add_script endpoint script s (files, none) =
      let (store, e) = Routes.add_dynamic_endpoint C K endpoint.path script s.store in
      (record { store = store; files = files }, post_reply e ∷ [])

  -- POST /dynamic: the file is written first, then the endpoint is added.
  unfoldable pub post_dynamic : String → Result DynamicEndpoint → Dynamic → Dynamic × List Response
  unfolding add_script
  post_dynamic stamp (err e) s = (s, reply status_bad_request (error_of e) ∷ [])
  post_dynamic stamp (ok endpoint) s =
      let script = gen_unique_filename stamp "py" in
      add_script endpoint script s
        (F.write fs_dyn_handle_dir script (wrap_code_for_dyn_handle endpoint.code) s.files)

  write_replies : Option Error → List Response
  write_replies none = []
  write_replies (some e) = reply status_internal_server_error (error_of e) ∷ []

  rewrite_script : DynamicEndpoint → Dynamic → Result String → Dynamic × List Response
  unfolding put_error_reply write_replies
  rewrite_script endpoint s (err e) = (s, put_error_reply e ∷ [])
  rewrite_script endpoint s (ok script) =
      let (files, e) =
        F.write fs_dyn_handle_dir script (wrap_code_for_dyn_handle endpoint.code) s.files in
      (
        record s { files = files },
        reply status_no_content (text "Dynamic endpoint successfully updated") ∷ write_replies e,
      )

  -- PUT /dynamic: it answers 204 before it writes the file, and once more if that fails.
  unfoldable pub put_dynamic : Result DynamicEndpoint → Dynamic → Dynamic × List Response
  unfolding rewrite_script
  put_dynamic (err e) s = (s, reply status_bad_request (error_of e) ∷ [])
  put_dynamic (ok endpoint) s =
      let (store, r) = Routes.get_dynamic_endpoint_script_name C K endpoint.path s.store in
      rewrite_script endpoint (record s { store = store }) r

  -- DELETE /dynamic?path=: the script file stays.
  unfoldable pub delete_dynamic : String → Dynamic → Dynamic × List Response
  unfolding delete_reply
  delete_dynamic path s =
      if path == ""
      then (s, reply status_bad_request (error_text "specify path param") ∷ [])
      else (let (store, e) = Routes.remove_dynamic_endpoint C K path s.store in
          (record s { store = store }, delete_reply e ∷ []))

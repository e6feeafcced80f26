-- ===== src/Server/StaticRoutes.antt =====
-- internal/server/static_routes_api.go: the handlers of /api/routes/static.
-- `c.Bind` and `c.Query` belong to gin: a handler takes what they return. `c.Bind` gives the record,
-- or the error of a body that it refuses; `c.Query` gives "" for a parameter that is missing.
use mock_server.Prelude.{
  ◌≡◌, ◌≢◌, ◌⊎◌, arith, String, Option, none, some, List, ◌==◌, if◌then◌else◌,
}
use mock_server.Errors.{Error, no_such_path, duplicate_key, bad_route_type, Result, ok, err}
use mock_server.Database.Documents.{Route}
use mock_server.Database.Driver.{Collection, Cache}
use mock_server.Database.Store.{Store}
use mock_server.Database.Routes
use mock_server.Server.Http.{
  text, error_text, error_of, endpoints, Response, reply, status_ok, status_no_content,
  status_bad_request, status_not_found, status_conflict, status_internal_server_error,
  StaticEndpoint,
}

-- The `switch err` blocks of the handlers.

list_reply : Result (List String) → Response
list_reply (ok paths) = reply status_ok (endpoints paths)
list_reply (err e) = reply status_internal_server_error (error_of e)

value_reply : Result String → Response
value_reply (ok value) = reply status_ok (text value)
value_reply (err no_such_path) =
    reply status_not_found (error_text "Received path was not created before")
value_reply (err bad_route_type) =
    reply status_not_found (error_text "Received path was not created before")
value_reply (err e) = reply status_internal_server_error (error_of e)

post_reply : Option Error → Response
post_reply none = reply status_ok (text "Static endpoint successfully added!")
post_reply (some duplicate_key) =
    reply status_conflict (error_text "The same endpoint already exists")
post_reply (some e) = reply status_internal_server_error (error_of e)

put_reply : Option Error → Response
put_reply none = reply status_no_content (text "Static endpoint successfully updated!")
put_reply (some no_such_path) =
    reply status_not_found (error_text "Received path was not created before")
put_reply (some e) = reply status_internal_server_error (error_of e)

delete_reply : Option Error → Response
delete_reply none = reply status_no_content (text "Static endpoint successfully removed!")
delete_reply (some no_such_path) =
    reply status_not_found (error_text "Received path was not created before")
delete_reply (some e) = reply status_internal_server_error (error_of e)

module _ (C : Collection) (K : Cache Route) where
  -- GET /static
  unfoldable pub get_static : Store C K → Store C K × Response
  unfolding list_reply
  get_static s = (s, list_reply (Routes.list_all_static_endpoint_paths C K s))

  -- GET /static/expected_response?path=
  unfoldable pub get_expected_response : String → Store C K → Store C K × Response
  unfolding value_reply
  get_expected_response path s =
      if path == ""
      then (s, reply status_bad_request (error_text "specify path param"))
      else (let (s', r) = Routes.get_static_endpoint_response C K path s in (s', value_reply r))

  -- POST /static
  unfoldable pub post_static : Result StaticEndpoint → Store C K → Store C K × Response
  unfolding post_reply
  post_static (err e) s = (s, reply status_bad_request (error_of e))
  post_static (ok endpoint) s =
      let (s', e) = Routes.add_static_endpoint C K endpoint.path endpoint.expected_response s in
      (s', post_reply e)

  -- PUT /static
  unfoldable pub put_static : Result StaticEndpoint → Store C K → Store C K × Response
  unfolding put_reply
  put_static (err e) s = (s, reply status_bad_request (error_of e))
  put_static (ok endpoint) s =
      let (s', e) = Routes.update_static_endpoint C K endpoint.path endpoint.expected_response s in
      (s', put_reply e)

  -- DELETE /static?path=
  unfoldable pub delete_static : String → Store C K → Store C K × Response
  unfolding delete_reply
  delete_static path s =
      if path == ""
      then (s, reply status_bad_request (error_text "specify path param"))
      else (let (s', e) = Routes.remove_static_endpoint C K path s in (s', delete_reply e))

put_reply_known :
    (q : Option Error)
    → (put_reply q).status ≢ status_internal_server_error
    → (q ≡ none) ⊎ (q ≡ some no_such_path)
unfolding put_reply
put_reply_known q h = ground arith

module _ {C : Collection} {K : Cache Route} where
  -- PUT is not answered 500 only where the update returns nil or ErrNoSuchPath.
  pub put_static_known :
      (endpoint : StaticEndpoint) (s : Store C K)
      → (put_static C K (ok endpoint) s).1.status ≢ status_internal_server_error
      → let e = (Routes.update_static_endpoint C K endpoint.path endpoint.expected_response s).1 in
        (e ≡ none) ⊎ (e ≡ some no_such_path)
  unfolding put_static
  put_static_known endpoint s h = put_reply_known _ h

  -- 200 and 204 are answered only where the database function has returned nil.
  pub post_static_ok :
      (endpoint : StaticEndpoint) (s : Store C K)
      → (post_static C K (ok endpoint) s).1.status ≡ status_ok
      → (Routes.add_static_endpoint C K endpoint.path endpoint.expected_response s).1 ≡ none
  unfolding post_static
  post_static_ok endpoint s h = ground arith

  pub put_static_no_content :
      (endpoint : StaticEndpoint) (s : Store C K)
      → (put_static C K (ok endpoint) s).1.status ≡ status_no_content
      → (Routes.update_static_endpoint C K endpoint.path endpoint.expected_response s).1 ≡ none
  unfolding put_static
  put_static_no_content endpoint s h = ground arith

  pub delete_static_no_content :
      (path : String) (s : Store C K)
      → (delete_static C K path s).1.status ≡ status_no_content
      → ((Routes.remove_static_endpoint C K path s).1 ≡ none)
        × ((delete_static C K path s).0 ≡ (Routes.remove_static_endpoint C K path s).0)
  unfolding delete_static
  delete_static_no_content path s h = ground arith

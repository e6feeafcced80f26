-- ===== src/Server/ProxyRoutes.antt =====
-- internal/server/proxy_routes_api.go: the handlers of /api/routes/proxy.
-- `url.ParseRequestURI` is net/url's; the handlers take the function, `none` for a URL that it parses.
-- `c.Bind` and `c.Query` belong to gin: a handler takes what they return. `c.Bind` gives the record,
-- or the error of a body that it refuses; `c.Query` gives "" for a parameter that is missing.
use mock_server.Prelude.{String, Option, none, some, List, ◌==◌, if◌then◌else◌}
use mock_server.Errors.{Error, no_such_path, duplicate_key, bad_route_type, Result, ok, err}
use mock_server.Database.Documents.{Route}
use mock_server.Database.Driver.{Collection, Cache}
use mock_server.Database.Store.{Store}
use mock_server.Database.Routes
use mock_server.Server.Http.{
  text, error_text, error_of, endpoints, Response, reply, status_ok, status_no_content,
  status_bad_request, status_not_found, status_conflict, status_internal_server_error,
  ProxyEndpoint,
}

-- The `switch err` blocks of the handlers.

list_reply : Result (List String) → Response
list_reply (ok paths) = reply status_ok (endpoints paths)
list_reply (err e) = reply status_internal_server_error (error_of e)

value_reply : Result String → Response
value_reply (ok value) = reply status_ok (text value)
value_reply (err no_such_path) =
    reply status_not_found (error_text "Received path was not created before")
value_reply (err bad_route_type) =
    reply status_not_found (error_text "Received path was not created before")
value_reply (err e) = reply status_internal_server_error (error_of e)

post_reply : Option Error → Response
post_reply none = reply status_ok (text "Proxy endpoint successfully added!")
post_reply (some duplicate_key) =
    reply status_conflict (error_text "The same endpoint already exists")
post_reply (some e) = reply status_internal_server_error (error_of e)

put_reply : Option Error → Response
put_reply none = reply status_no_content (text "Proxy endpoint successfully updated!")
put_reply (some no_such_path) =
    reply status_not_found (error_text "Received path was not created before")
put_reply (some e) = reply status_internal_server_error (error_of e)

delete_reply : Option Error → Response
delete_reply none = reply status_no_content (text "Proxy endpoint successfully removed!")
delete_reply (some no_such_path) =
    reply status_not_found (error_text "Received path was not created before")
delete_reply (some e) = reply status_internal_server_error (error_of e)

module _ (C : Collection) (K : Cache Route) where
  -- GET /proxy
  unfoldable pub get_proxy : Store C K → Store C K × Response
  unfolding list_reply
  get_proxy s = (s, list_reply (Routes.list_all_proxy_endpoint_paths C K s))

  -- GET /proxy/proxy_url?path=
  unfoldable pub get_proxy_url : String → Store C K → Store C K × Response
  unfolding value_reply
  get_proxy_url path s =
      if path == ""
      then (s, reply status_bad_request (error_text "specify path param"))
      else (let (s', r) = Routes.get_proxy_endpoint_proxy_url C K path s in (s', value_reply r))

  -- DELETE /proxy?path=
  unfoldable pub delete_proxy : String → Store C K → Store C K × Response
  unfolding delete_reply
  delete_proxy path s =
      if path == ""
      then (s, reply status_bad_request (error_text "specify path param"))
      else (let (s', e) = Routes.remove_proxy_endpoint C K path s in (s', delete_reply e))

module _ (parse_request_uri : String → Option Error) (C : Collection) (K : Cache Route) where
  -- POST /proxy
  unfoldable pub post_proxy : Result ProxyEndpoint → Store C K → Store C K × Response
  unfolding post_reply
  post_proxy (err e) s = (s, reply status_bad_request (error_of e))
  post_proxy (ok endpoint) s = elim (parse_request_uri endpoint.proxy_url) [
    | some e ↦ (s, reply status_bad_request (error_of e))
    | none ↦
        let (s', e) = Routes.add_proxy_endpoint C K endpoint.path endpoint.proxy_url s in
        (s', post_reply e)
  ]

  -- PUT /proxy
  unfoldable pub put_proxy : Result ProxyEndpoint → Store C K → Store C K × Response
  unfolding put_reply
  put_proxy (err e) s = (s, reply status_bad_request (error_of e))
  put_proxy (ok endpoint) s = elim (parse_request_uri endpoint.proxy_url) [
    | some e ↦ (s, reply status_bad_request (error_of e))
    | none ↦
        let (s', e) = Routes.update_proxy_endpoint C K endpoint.path endpoint.proxy_url s in
        (s', put_reply e)
  ]

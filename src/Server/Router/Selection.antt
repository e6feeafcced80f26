-- ===== src/Server/Router/Selection.antt =====
-- internal/server/server.go: what initMainRoutes registers.
use mock_server.Prelude.{
  ◌≡◌, ◌↔◌, refl, sym, ◌∙◌, ap, String, List, [], ◌∷◌, ◌&&◌, none, some, ◌==◌, All, arith, eq_iff,
  Bool-cases, inl, inr,
}
use mock_server.Server.Router.{
  Handler, Entry, init_main_routes, find_handler, ping, get_static, get_expected_response,
  post_static, put_static, delete_static, get_dynamic, get_code, post_dynamic, put_dynamic,
  delete_dynamic, get_proxy, get_proxy_url, post_proxy, put_proxy, delete_proxy, get_pools,
  get_config, get_read, get_write, post_read, post_write, post_pool, delete_pool, get_esb,
  get_esb_code, post_esb, post_esb_task, delete_esb,
}

-- gin panics where a method and a path are registered twice.
abbrev pub IsDistinct : List Entry → Type 0
IsDistinct [] = Unit {0}
IsDistinct (e ∷ es) = (find_handler es e.method e.path ≡ none) × IsDistinct es

pub init_main_routes-IsDistinct : IsDistinct init_main_routes
unfolding init_main_routes
init_main_routes-IsDistinct = search (refl, tt)

-- The API, handler by handler: the method and the whole path.
abbrev pub endpoint_of : Handler → String × String
endpoint_of ping = ("GET", "/api/ping")
endpoint_of get_static = ("GET", "/api/routes/static")
endpoint_of get_expected_response = ("GET", "/api/routes/static/expected_response")
endpoint_of post_static = ("POST", "/api/routes/static")
endpoint_of put_static = ("PUT", "/api/routes/static")
endpoint_of delete_static = ("DELETE", "/api/routes/static")
endpoint_of get_dynamic = ("GET", "/api/routes/dynamic")
endpoint_of get_code = ("GET", "/api/routes/dynamic/code")
endpoint_of post_dynamic = ("POST", "/api/routes/dynamic")
endpoint_of put_dynamic = ("PUT", "/api/routes/dynamic")
endpoint_of delete_dynamic = ("DELETE", "/api/routes/dynamic")
endpoint_of get_proxy = ("GET", "/api/routes/proxy")
endpoint_of get_proxy_url = ("GET", "/api/routes/proxy/proxy_url")
endpoint_of post_proxy = ("POST", "/api/routes/proxy")
endpoint_of put_proxy = ("PUT", "/api/routes/proxy")
endpoint_of delete_proxy = ("DELETE", "/api/routes/proxy")
endpoint_of get_pools = ("GET", "/api/brokers/pool")
endpoint_of get_config = ("GET", "/api/brokers/pool/config")
endpoint_of get_read = ("GET", "/api/brokers/pool/read")
endpoint_of get_write = ("GET", "/api/brokers/pool/write")
endpoint_of post_read = ("POST", "/api/brokers/pool/read")
endpoint_of post_write = ("POST", "/api/brokers/pool/write")
endpoint_of post_pool = ("POST", "/api/brokers/pool")
endpoint_of delete_pool = ("DELETE", "/api/brokers/pool")
endpoint_of get_esb = ("GET", "/api/brokers/esb")
endpoint_of get_esb_code = ("GET", "/api/brokers/esb/code")
endpoint_of post_esb = ("POST", "/api/brokers/esb")
endpoint_of post_esb_task = ("POST", "/api/brokers/esb/task")
endpoint_of delete_esb = ("DELETE", "/api/brokers/esb")

abbrev IsAt : Entry → Type 0
IsAt e = endpoint_of e.handler ≡ (e.method, e.path)

find_handler_at :
    (es : List Entry) (method path : String) (h : Handler)
    → All IsAt es
    → find_handler es method path ≡ some h
    → endpoint_of h ≡ (method, path)
find_handler_at [] method path h at f = cc
find_handler_at (e ∷ es) method path h (here, rest) f =
    elim (Bool-cases (e.method == method && e.path == path)) [
      | inl hit ↦
          let same : e.handler ≡ h = (ground arith) in
          sym (ap endpoint_of same)
          ∙ here
          ∙ (ground (arith, eq_iff e.method method, eq_iff e.path path))
      | inr miss ↦ find_handler_at es method path h rest (rw miss at f)
    ]

find_handler-endpoint_of :
    (h : Handler) → find_handler init_main_routes (endpoint_of h).0 (endpoint_of h).1 ≡ some h
unfolding init_main_routes
find_handler-endpoint_of ping = refl
find_handler-endpoint_of get_static = refl
find_handler-endpoint_of get_expected_response = refl
find_handler-endpoint_of post_static = refl
find_handler-endpoint_of put_static = refl
find_handler-endpoint_of delete_static = refl
find_handler-endpoint_of get_dynamic = refl
find_handler-endpoint_of get_code = refl
find_handler-endpoint_of post_dynamic = refl
find_handler-endpoint_of put_dynamic = refl
find_handler-endpoint_of delete_dynamic = refl
find_handler-endpoint_of get_proxy = refl
find_handler-endpoint_of get_proxy_url = refl
find_handler-endpoint_of post_proxy = refl
find_handler-endpoint_of put_proxy = refl
find_handler-endpoint_of delete_proxy = refl
find_handler-endpoint_of get_pools = refl
find_handler-endpoint_of get_config = refl
find_handler-endpoint_of get_read = refl
find_handler-endpoint_of get_write = refl
find_handler-endpoint_of post_read = refl
find_handler-endpoint_of post_write = refl
find_handler-endpoint_of post_pool = refl
find_handler-endpoint_of delete_pool = refl
find_handler-endpoint_of get_esb = refl
find_handler-endpoint_of get_esb_code = refl
find_handler-endpoint_of post_esb = refl
find_handler-endpoint_of post_esb_task = refl
find_handler-endpoint_of delete_esb = refl

-- The registrations of initMainRoutes give a method and a path to a handler exactly if they are the
-- ones at which the list of endpoints has the handler.
pub find_handler-eq-some_iff :
    (method path : String) (h : Handler)
    → (find_handler init_main_routes method path ≡ some h) ↔ (endpoint_of h ≡ (method, path))
unfolding init_main_routes
find_handler-eq-some_iff method path h = (
  find_handler_at init_main_routes method path h (search (refl, tt)),
  λ at. rw (sym (ap (λ p. p.0) at), sym (ap (λ p. p.1) at)) (find_handler-endpoint_of h),
)

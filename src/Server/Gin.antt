-- ===== src/Server/Gin.antt =====
-- github.com/gin-gonic/gin and the middleware of internal/server/server.go, as far as the server uses
-- them: what gin reads of a request, and which handler it selects for it.
use mock_server.Prelude.{◌≡◌, String, List, none, some}
use mock_server.Errors.{Result}
use mock_server.Util.Text.{◌^◌}
use mock_server.Server.Http.{
  PoolView, EsbView, BrokerTask, Response, StaticEndpoint, ProxyEndpoint, DynamicEndpoint,
}
use mock_server.Server.Router.{Handler, Entry, find_handler}
use mock_server.Server.Router.Selection.{IsDistinct}
use mock_server.Server.NoRoute.{Request}

-- What the handlers read of a request: `raw` for the mock endpoints, `query` for `c.Query`, and for
-- each type that a handler binds what `c.Bind` gives. `stamp` is the clock when the request is handled.
pub record HttpRequest : Type 0 where
  pub raw : Request
  pub path : String
  pub origin : String
  pub query : String → String
  pub static_endpoint : Result StaticEndpoint
  pub proxy_endpoint : Result ProxyEndpoint
  pub dynamic_endpoint : Result DynamicEndpoint
  pub message_pool : Result PoolView
  pub esb_record : Result EsbView
  pub broker_task : Result BrokerTask
  pub stamp : String

-- What gin does with a request.
pub data Selection : Type 0 where
  handled : Handler → Selection
  unmatched : Selection
  answered : Response → Selection

pub record Gin : Type 0 where
  pub select : List Entry → HttpRequest → Selection

-- The documented behaviour for registrations without duplicates: a handler is the registered one, and
-- the handler for unmatched requests is for those without one. The middleware leaves a request of the
-- same origin alone, and gin answers itself only where a slash more or less would find a handler.
pub record GinLaws (G : Gin) : Type 0 where
  pub handled_registered :
      (es : List Entry) (req : HttpRequest) (h : Handler)
      → IsDistinct es
      → G.select es req ≡ handled h
      → find_handler es req.raw.method req.path ≡ some h
  pub unmatched_unregistered :
      (es : List Entry) (req : HttpRequest)
      → IsDistinct es
      → G.select es req ≡ unmatched
      → find_handler es req.raw.method req.path ≡ none
  pub registered :
      (es : List Entry) (req : HttpRequest) (h : Handler)
      → IsDistinct es
      → req.origin ≡ ""
      → find_handler es req.raw.method req.path ≡ some h
      → G.select es req ≡ handled h
  pub unregistered :
      (es : List Entry) (req : HttpRequest)
      → IsDistinct es
      → req.origin ≡ ""
      → find_handler es req.raw.method req.path ≡ none
      → find_handler es req.raw.method (req.path ^ "/") ≡ none
      → ((p : String) → p ^ "/" ≡ req.path → find_handler es req.raw.method p ≡ none)
      → G.select es req ≡ unmatched

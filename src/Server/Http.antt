-- ===== src/Server/Http.antt =====
-- Requests and responses, as far as the handlers of internal/server look at them, and
-- internal/server/protocol.
use mock_server.Prelude.{ℕ, String, List}
use mock_server.Errors.{Error}

-- protocol.MessagePool and protocol.EsbRecord; a field that is left out is "".
pub record PoolView : Type 0 where
  pub pool_name : String
  pub queue_name : String
  pub topic_name : String
  pub broker : String

pub record EsbView : Type 0 where
  pub pool_name_in : String
  pub pool_name_out : String
  pub code : String

-- protocol.BrokerTask
pub record BrokerTask : Type 0 where
  pub pool_name : String
  pub messages : List String

-- What a handler hands to `c.JSON`.
pub data Body : Type 0 where
  text : String → Body
  error_text : String → Body  -- {"error": "..."}
  error_of : Error → Body  -- {"error": err.Error()}
  endpoints : List String → Body
  messages : List String → Body
  pools : List PoolView → Body
  records : List EsbView → Body
  json : String → Body  -- a value by its JSON text

pub record Response : Type 0 where
  pub status : ℕ
  pub body : Body

abbrev pub reply : ℕ → Body → Response
reply status body = record { status = status; body = body }

-- net/http
abbrev pub status_ok : ℕ
status_ok = 200

abbrev pub status_no_content : ℕ
status_no_content = 204

abbrev pub status_bad_request : ℕ
status_bad_request = 400

abbrev pub status_not_found : ℕ
status_not_found = 404

abbrev pub status_conflict : ℕ
status_conflict = 409

abbrev pub status_internal_server_error : ℕ
status_internal_server_error = 500

-- protocol

pub record StaticEndpoint : Type 0 where
  pub path : String
  pub expected_response : String

pub record ProxyEndpoint : Type 0 where
  pub path : String
  pub proxy_url : String

pub record DynamicEndpoint : Type 0 where
  pub path : String
  pub code : String

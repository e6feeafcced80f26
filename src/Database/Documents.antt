-- ===== src/Database/Documents.antt =====
-- internal/database/models.go: the records, and the BSON documents that their field tags make of them.
use mock_server.Prelude.{
  ◌≡◌, refl, arith, String, Option, none, some, List, [], ◌∷◌, ◌==◌, if◌then◌else◌, eq_iff,
}
use mathlib.Core.Option

-- A document as far as the program reads it: field names with texts.
abbrev pub Doc : Type 0
Doc = List (String × String)

pub record Route : Type 0 where
  pub path : String
  pub kind : String  -- `Type`, a reserved word here
  pub script_name : String
  pub response : String
  pub proxy_url : String

pub record TaskMessage : Type 0 where
  pub task_id : String
  pub message : String

pub record EsbRecord : Type 0 where
  pub pool_name_in : String
  pub pool_name_out : String
  pub mapper_script_name : String

pub record MessagePool : Type 0 where
  pub name : String
  pub queue : String
  pub broker : String
  pub config : String  -- bytes

abbrev pub static_endpoint_type : String
static_endpoint_type = "static_endpoint"

abbrev pub proxy_endpoint_type : String
proxy_endpoint_type = "proxy_endpoint"

abbrev pub dynamic_endpoint_type : String
dynamic_endpoint_type = "dynamic_endpoint"

unfoldable pub field : String → Doc → Option String
field k [] = none
field k ((j, v) ∷ d) = if j == k then some v else field k d

-- `$set`: a field that is not there is added.
unfoldable pub set_field : String → String → Doc → Doc
set_field k v [] = (k, v) ∷ []
set_field k v ((j, w) ∷ d) = if j == k then (k, v) ∷ d else (j, w) ∷ set_field k v d

unfoldable pub set_fields : List (String × String) → Doc → Doc
set_fields [] d = d
set_fields ((k, v) ∷ sets) d = set_fields sets (set_field k v d)

-- A field that the document lacks is left at its zero value.
unfoldable pub text : String → Doc → String
unfolding field
text k d = Option.get_or (field k d) ""

-- `omitempty`
abbrev omitempty : String → String → Doc → Doc
omitempty k v d = if v == "" then d else (k, v) ∷ d

unfoldable pub encode_route : Route → Doc
encode_route r =
    ("path", r.path)
    ∷ ("type", r.kind)
    ∷ omitempty "script_name" r.script_name
        (omitempty "response" r.response (("proxy_url", r.proxy_url) ∷ []))

unfoldable pub decode_route : Doc → Route
unfolding text
decode_route d = record {
  path = text "path" d;
  kind = text "type" d;
  script_name = text "script_name" d;
  response = text "response" d;
  proxy_url = text "proxy_url" d;
}

unfoldable pub encode_task_message : TaskMessage → Doc
encode_task_message m = ("task_id", m.task_id) ∷ ("message", m.message) ∷ []

unfoldable pub decode_task_message : Doc → TaskMessage
unfolding text
decode_task_message d = record { task_id = text "task_id" d; message = text "message" d }

unfoldable pub encode_esb_record : EsbRecord → Doc
encode_esb_record r =
    ("pool_name_in", r.pool_name_in)
    ∷ ("pool_name_out", r.pool_name_out)
    ∷ ("mapper_script_name", r.mapper_script_name)
    ∷ []

unfoldable pub decode_esb_record : Doc → EsbRecord
unfolding text
decode_esb_record d = record {
  pool_name_in = text "pool_name_in" d;
  pool_name_out = text "pool_name_out" d;
  mapper_script_name = text "mapper_script_name" d;
}

unfoldable pub encode_message_pool : MessagePool → Doc
encode_message_pool p =
    ("name", p.name) ∷ ("queue", p.queue) ∷ ("broker", p.broker) ∷ ("config", p.config) ∷ []

unfoldable pub decode_message_pool : Doc → MessagePool
unfolding text
decode_message_pool d = record {
  name = text "name" d;
  queue = text "queue" d;
  broker = text "broker" d;
  config = text "config" d;
}

-- Whatever the route's fields hold, empty ones included, its document reads back as it was.
pub decode_route-encode_route : (r : Route) → decode_route (encode_route r) ≡ r
unfolding decode_route encode_route
decode_route-encode_route r = ground (arith, eq_iff r.script_name "", eq_iff r.response "")

pub decode_esb_record-encode_esb_record :
    (r : EsbRecord) → decode_esb_record (encode_esb_record r) ≡ r
unfolding decode_esb_record encode_esb_record
decode_esb_record-encode_esb_record r = refl

pub decode_message_pool-encode_message_pool :
    (p : MessagePool) → decode_message_pool (encode_message_pool p) ≡ p
unfolding decode_message_pool encode_message_pool
decode_message_pool-encode_message_pool p = refl

-- ===== src/Database/Records.antt =====
-- internal/database/esb_records.go, message_pools.go and task_messages.go, and the functions of
-- internal/database/mongo.go that name the messages of a pool.
use mock_server.Prelude.{◌≡◌, String, List, [], ◌∷◌, Option, none, some, map}
use mock_server.Errors.{
  DriverError, duplicate_write, Error, duplicate_key, no_such_record, no_such_pool, driver, Result,
  ok, err,
}
use mock_server.Util.Text.{◌^◌}
use text.Mathlib.TextLemmas
use mock_server.Database.Documents.{
  Doc, TaskMessage, EsbRecord, MessagePool, encode_task_message, decode_task_message,
  encode_esb_record, decode_esb_record, encode_message_pool, decode_message_pool,
}
use mock_server.Database.Driver.{Collection, Cache}
use mock_server.Database.Store.{Schema, Store, error_of, add, remove, get, list}

abbrev pub esb_schema : Schema EsbRecord
esb_schema = record {
  key = "pool_name_in";
  id = λ r. r.pool_name_in;
  encode = encode_esb_record;
  decode = decode_esb_record;
  missing = no_such_record;
}

abbrev pub pool_schema : Schema MessagePool
pool_schema = record {
  key = "name";
  id = λ p. p.name;
  encode = encode_message_pool;
  decode = decode_message_pool;
  missing = no_such_pool;
}

module _ (C : Collection) (K : Cache EsbRecord) where
  unfoldable pub add_esb_record : EsbRecord → Store C K → Store C K × Option Error
  add_esb_record esb_record = add C K esb_schema esb_record

  unfoldable pub remove_esb_record : String → Store C K → Store C K × Option Error
  remove_esb_record pool_name_in = remove C K esb_schema pool_name_in

  unfoldable pub get_esb_record : String → Store C K → Store C K × Result EsbRecord
  get_esb_record pool_name_in = get C K esb_schema pool_name_in

  unfoldable pub list_esb_records : Store C K → Result (List EsbRecord)
  list_esb_records = list C K esb_schema

module _ (C : Collection) (K : Cache MessagePool) where
  unfoldable pub add_message_pool : MessagePool → Store C K → Store C K × Option Error
  add_message_pool message_pool = add C K pool_schema message_pool

  unfoldable pub remove_message_pool : String → Store C K → Store C K × Option Error
  remove_message_pool name = remove C K pool_schema name

  unfoldable pub get_message_pool : String → Store C K → Store C K × Result MessagePool
  get_message_pool name = get C K pool_schema name

  unfoldable pub list_message_pools : Store C K → Result (List MessagePool)
  list_message_pools = list C K pool_schema

-- `"%s:%s:%s:read"` and `"%s:%s:%s:write"` of a pool's broker, name and queue.
unfoldable pub read_tasks_id : MessagePool → String
read_tasks_id p = p.broker ^ ":" ^ p.name ^ ":" ^ p.queue ^ ":read"

unfoldable pub write_tasks_id : MessagePool → String
write_tasks_id p = p.broker ^ ":" ^ p.name ^ ":" ^ p.queue ^ ":write"

-- The collection of task messages has no cache and no lock.
module _ (C : Collection) where
  unfoldable pub message_error : Option DriverError → Option Error
  message_error (some duplicate_write) = some duplicate_key
  message_error e = error_of e

  unfoldable pub add_task_message : TaskMessage → C.State → C.State × Option Error
  unfolding message_error
  add_task_message m s =
      let (s', e) = C.insert_one (encode_task_message m) s in (s', message_error e)

  unfoldable pub messages_of : List Doc → Option DriverError → Result (List String)
  messages_of ds none = ok (map (λ d. (decode_task_message d).message) ds)
  messages_of ds (some e) = err (driver e)

  unfoldable pub get_task_messages : String → C.State → Result (List String)
  unfolding messages_of
  get_task_messages task_id s =
      let (ds, e) = C.find (("task_id", task_id) ∷ []) "timestamp" s in messages_of ds e

  unfoldable pub get_message_pool_read_messages : MessagePool → C.State → Result (List String)
  get_message_pool_read_messages p s = get_task_messages (read_tasks_id p) s

  unfoldable pub get_message_pool_write_messages : MessagePool → C.State → Result (List String)
  get_message_pool_write_messages p s = get_task_messages (write_tasks_id p) s

  -- Colons in names are not escaped: two pools whose name and queue differ only in where a colon
  -- stands list the same read messages.
  pub get_message_pool_read_messages_collide :
      (broker a b c config : String) (s : C.State)
      → get_message_pool_read_messages
          (record { name = a ^ ":" ^ b; queue = c; broker = broker; config = config })
          s
        ≡ get_message_pool_read_messages
            (record { name = a; queue = b ^ ":" ^ c; broker = broker; config = config })
            s
  unfolding get_message_pool_read_messages read_tasks_id
  get_message_pool_read_messages_collide broker a b c config s = simp TextLemmas.append_assoc

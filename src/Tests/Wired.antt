-- ===== src/Tests/Wired.antt =====
-- internal/brokers over internal/database, with collections that are lists and a mapper that fails.
use mock_server.Prelude.{
  ◌+◌, ◌≡◌, refl, String, Bool, ◌&&◌, ◌==◌, if◌then◌else◌, List, [], ◌∷◌, Option, none, some, arith,
}
use mock_server.Errors.{DriverError, no_documents, Result, ok, err, failed}
use mock_server.Util.Tally.{tally}
use mock_server.Database.Documents.{
  Doc, EsbRecord, MessagePool, text, field, encode_task_message, encode_message_pool,
}
use mock_server.Database.Driver.{Collection, Cache}
use mock_server.Database.Messages.{MessageLaws}
use mock_server.Coderun.RunScript.{ScriptWorkers}
use mock_server.Brokers.Registry.{Clients}
use mock_server.Brokers.Esb.{Esb, submit_to_esb, submit_to_esb_lem, Submits}
use mock_server.Brokers.Tasks.Rabbitmq.{World, write}
use mock_server.Brokers.Tasks.Wired.{services, write_listed}
use mock_server.Tests.Pools.{codec}
use mock_server.Tests.Tasks.{amqp, amqp_laws, pool}

abbrev has : String → String → Doc → Bool
has f v d = text f d == v

abbrev all_with : List (String × String) → List Doc → List Doc
all_with [] ds = ds
all_with ((f, v) ∷ rest) [] = []
all_with ((f, v) ∷ rest) (d ∷ ds) =
    let more = all_with ((f, v) ∷ rest) ds in if has f v d then d ∷ more else more

abbrev first_with : String → String → List Doc → Doc × Option DriverError
first_with f v [] = ([], some no_documents)
first_with f v (d ∷ ds) = let rest = first_with f v ds in if has f v d then (d, none) else rest

abbrev docs : Collection
docs = record {
  State = List Doc;
  insert_one = λ d s. (d ∷ s, none);
  find_one = first_with;
  find = λ filter sort s. (all_with filter s, none);
  delete_one = λ f k s. (s, none);
  update_one = λ filter sets s. (s, some 0, none);
}

tally-all_with :
    (f v m : String) (ds : List Doc)
    → tally (λ d. text "message" d == m) (all_with ((f, v) ∷ []) ds)
      ≡ tally (λ d. has f v d && text "message" d == m) ds
tally-all_with f v m [] = refl
tally-all_with f v m (d ∷ ds) = ground (arith, tally-all_with f v m ds)

docs_laws : MessageLaws docs
unfolding encode_task_message text field
docs_laws = record {
  stored = λ s id m. tally (λ d. has "task_id" id d && text "message" d == m) s;
  insert_ok = λ t s id m h. omega arith;
  insert_failed = λ t s e id m h. cc;
  find_ok = λ sort s id m h. tally-all_with "task_id" id m s;
}

-- A cache that drops every entry.
abbrev no_cache : (V : Type 0) → Cache V
no_cache V = record {
  State = Unit {0};
  get = λ load k s. let (v, e) = load k in (s, v, e);
  set = λ k v s. (s, none);
  remove = λ k s. s;
}

abbrev clients : Clients
clients = record {
  State = Unit {0};
  kafka_connection = err (failed "none");
  new_admin_client = λ addr s. none;
  create_topics = λ addr topic s. (s, none);
  delete_topics = λ addr topic s. (s, none);
  rabbitmq_connection = err (failed "none");
  dial = λ addr s. none;
  channel = λ addr s. none;
  queue_delete = λ addr queue s. (s, none);
}

abbrev workers : ScriptWorkers
workers = record {
  State = Unit {0};
  Worker = Unit {0};
  borrow_worker = λ s. (s, ok tt);
  return_worker = λ w s. s;
  run_script = λ w run_type script args s. (s, "[\"mapped\"]", none);
}

abbrev unmarshal : String → Result (List String)
unmarshal t = if t == "[\"mapped\"]" then ok ("mapped" ∷ []) else err (failed "invalid")

abbrev kept : MessagePool
kept = record { name = "o"; queue = "t"; broker = "kafka"; config = "new" }

abbrev esb : Esb workers unmarshal codec clients docs (no_cache MessagePool)
esb = record {
  registry = record {
    pools = record { coll = encode_message_pool kept ∷ []; cache = tt };
    brokers = tt;
  };
  workers = tt;
  scheduled = [];
}

abbrev mapped : EsbRecord
mapped = record { pool_name_in = "p"; pool_name_out = "o"; mapper_script_name = "script_1.py" }

submit_to_esb_lem_example :
    Submits workers unmarshal codec clients docs (no_cache MessagePool) mapped ("a" ∷ []) esb (
      submit_to_esb workers unmarshal codec clients docs
        (no_cache MessagePool)
        mapped
        ("a" ∷ [])
        esb)
submit_to_esb_lem_example =
    submit_to_esb_lem workers unmarshal codec clients docs (no_cache MessagePool) mapped ("a" ∷ [])
      esb

abbrev wired_services : mock_server.Brokers.Tasks.Services
wired_services =
    services workers unmarshal codec clients docs (no_cache MessagePool) docs (no_cache EsbRecord)
      docs

abbrev world : World codec amqp wired_services
world = record {
  amqp = [];
  services = record { esb = esb; esb_records = record { coll = []; cache = tt }; messages = [] };
}

write_listed_example :
    tally (λ n. n == "a") ("b" ∷ "a" ∷ [])
    ≡ tally (λ n. n == "a") [] + tally (λ n. n == "a") ("a" ∷ "b" ∷ [])
unfolding write mock_server.Brokers.Tasks.Rabbitmq.write_message
    mock_server.Database.Records.add_task_message
    mock_server.Database.Records.get_message_pool_write_messages
    mock_server.Database.Records.get_task_messages text encode_task_message
    mock_server.Brokers.Registry.write_task_id
    mock_server.Brokers.Registry.new_rabbitmq_message_pool
    mock_server.Database.Records.write_tasks_id mock_server.Database.Documents.decode_task_message
write_listed_example =
    write_listed workers unmarshal codec clients docs (no_cache MessagePool) docs
      (no_cache EsbRecord) docs docs_laws amqp_laws pool "q" "" ("a" ∷ "b" ∷ []) [] ("b" ∷ "a" ∷ [])
      world refl refl refl "a"

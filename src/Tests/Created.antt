-- ===== src/Tests/Created.antt =====
-- internal/server/pool_brokers_api.go with a Kafka whose address is "h:9", over the stores of
-- Tests/Mongo.antt.
use mock_server.Prelude.{String, List, ◌==◌, if◌then◌else◌, ◌≡◌, refl, [], ◌∷◌, none}
use mock_server.Errors.{Result, ok, err, failed}
use mock_server.Database.Documents.{
  EsbRecord, MessagePool, field, encode_message_pool, decode_message_pool,
}
use mock_server.Database.Store
use mock_server.Database.Records
use mock_server.Database.Store.Coherence.{stored}
use mock_server.Brokers.Pools.{KafkaMessagePoolConfig}
use mock_server.Util.Text.{join_path}
use mock_server.Coderun.Script.{Host, run_python_script, replace_quotes, trim_space}
use mock_server.Coderun.Script.Delivery.{workers_over}
use mock_server.Brokers.Esb.{Esb, submit_to_esb}
use mock_server.Brokers.Esb.Delivered.{submit_to_esb-delivery}
use mock_server.Tests.Watcher.{lend, give, worker}
use mock_server.Brokers.Registry.{
  Pool, kafka, Clients, create_broker_endpoint, remove_broker_endpoint, get_json_config,
  create_from_database, get_name, get_broker,
}
use mock_server.Brokers.Registry.Stored
use mock_server.Server.Http.{PoolView, BrokerTask}
use mock_server.Server.PoolBrokers.{Brokers, post_pool, post_write, get_config, delete_pool}
use mock_server.Server.PoolBrokers.Caches.{post_pool-IsCoherentRegistry}
use mock_server.Server.PoolBrokers.Deleted.{not_found, post_write-delete_pool}
use mock_server.Server.PoolBrokers.Created.{SchedulesWrite, post_write-post_pool}
use mock_server.Tests.Mongo.{keyed, keyed_laws, caching, caching_laws}
use mock_server.Tests.Pools.{new_config, codec_of, codec_laws}

abbrev config : KafkaMessagePoolConfig
config = record new_config { tcfg = record { addr = "h:9"; client_id = "c"; group_id = "g" } }

abbrev clients : Clients
clients = record {
  State = Unit;
  kafka_connection = ok (record { host = "h"; port = "9"; client_id = "c"; group_id = "g" });
  new_admin_client = λ a s. none;
  create_topics = λ a t s. (s, none);
  delete_topics = λ a t s. (s, none);
  rabbitmq_connection = err (failed "down");
  dial = λ a s. none;
  channel = λ a s. none;
  queue_delete = λ a q s. (s, none);
}

abbrev view : PoolView
view = record { pool_name = "p"; queue_name = ""; topic_name = "t"; broker = "kafka" }

abbrev task : BrokerTask
task = record { pool_name = "p"; messages = "a" ∷ "b" ∷ [] }

abbrev empty : Brokers (codec_of config) clients (keyed "name") (caching MessagePool) (keyed "id")
empty = record {
  registry = record { pools = record { coll = λ _. none; cache = λ _. none }; brokers = tt };
  task_messages = λ _. none;
  scheduled = [];
}

post_write-post_pool_example :
    SchedulesWrite
      (codec_laws config)
      (keyed_laws "name")
      (caching_laws MessagePool)
      view
      task
      empty
      (post_write
        (codec_of config)
        clients
        (keyed "name")
        (caching MessagePool)
        (keyed "id")
        (ok task)
        (post_pool
          (codec_of config)
          clients
          (keyed "name")
          (caching MessagePool)
          (keyed "id")
          (ok view)
          empty).0)
unfolding keyed_laws caching_laws stored post_pool Stored.add_message_pool create_broker_endpoint
    get_json_config Records.add_message_pool Store.add field encode_message_pool
post_write-post_pool_example =
    post_write-post_pool (codec_laws config) (keyed_laws "name") (caching_laws MessagePool) view
      task empty (λ k v h. cc) refl tt refl

abbrev with_pool :
    Brokers (codec_of config) clients (keyed "name") (caching MessagePool) (keyed "id")
with_pool =
    (post_pool (codec_of config) clients (keyed "name") (caching MessagePool) (keyed "id") (ok view)
      empty).0

abbrev without_pool :
    Brokers (codec_of config) clients (keyed "name") (caching MessagePool) (keyed "id")
without_pool =
    (delete_pool (codec_of config) clients (keyed "name") (caching MessagePool) (keyed "id") "p"
      with_pool).0

post_write-delete_pool_example :
    ((get_config
        (codec_of config)
        clients
        (keyed "name")
        (caching MessagePool)
        (keyed "id")
        "p"
        without_pool).1
      ≡ not_found ∷ [])
    × ((post_write
          (codec_of config)
          clients
          (keyed "name")
          (caching MessagePool)
          (keyed "id")
          (ok task)
          without_pool).1
        ≡ not_found ∷ [])
    × ((post_write
          (codec_of config)
          clients
          (keyed "name")
          (caching MessagePool)
          (keyed "id")
          (ok task)
          without_pool).0.scheduled
        ≡ [])
unfolding keyed_laws caching_laws stored post_pool Stored.add_message_pool create_broker_endpoint
    get_json_config Records.add_message_pool Store.add field encode_message_pool delete_pool
    Stored.remove_message_pool Stored.get_message_pool Records.get_message_pool Store.get Store.load
    decode_message_pool create_from_database remove_broker_endpoint Records.remove_message_pool
    Store.remove get_name get_broker
post_write-delete_pool_example =
    post_write-delete_pool (keyed_laws "name") (caching_laws MessagePool) "p" task with_pool
      (λ e. cc)
      (post_pool-IsCoherentRegistry (keyed_laws "name") (caching_laws MessagePool) (ok view) empty
        (λ k v h. cc))
      refl tt refl

-- A mapper that is there, and prints a list as Python does.
abbrev host : Host
host = record {
  State = Unit {0};
  storage_root = ("/src/.storage", none);
  exists = λ path s. path == "/src/.storage/coderun/mapper/script_1.py";
  write_args = λ bytes s. (s, none);
  python = λ path s. (s, "['x']\n", "", none);
}

abbrev unmarshal : String → Result (List String)
unmarshal t = if t == "[\"x\"]" then ok ("x" ∷ []) else err (failed "unexpected end of JSON input")

abbrev to_p : EsbRecord
to_p = record { pool_name_in = "i"; pool_name_out = "p"; mapper_script_name = "script_1.py" }

abbrev esb :
    Esb
      (workers_over host lend give)
      unmarshal
      (codec_of config)
      clients
      (keyed "name")
      (caching MessagePool)
esb = record { registry = with_pool.registry; workers = (worker "1" 0 ∷ [], tt); scheduled = [] }

abbrev stored_p : Pool (codec_of config)
stored_p =
    kafka (record {
      name = "p";
      topic = "t";
      tcfg = config.tcfg;
      rcfg = config.rcfg;
      wcfg = config.wcfg;
    })

submit_to_esb-delivery_example :
    let (esb', failure) =
      submit_to_esb
        (workers_over host lend give)
        unmarshal
        (codec_of config)
        clients
        (keyed "name")
        (caching MessagePool)
        to_p
        ("a" ∷ [])
        esb in
    (esb'.workers ≡ (worker "1" 0 ∷ [], tt))
    × (failure ≡ none)
    × (esb'.scheduled ≡ (stored_p, "x" ∷ []) ∷ [])
unfolding post_pool Stored.add_message_pool create_broker_endpoint get_json_config
    Records.add_message_pool Store.add field encode_message_pool Stored.get_message_pool
    Records.get_message_pool Store.get Store.load decode_message_pool create_from_database get_name
    get_broker run_python_script join_path replace_quotes trim_space
submit_to_esb-delivery_example =
    submit_to_esb-delivery host lend give unmarshal (codec_of config) clients (keyed "name")
      (caching MessagePool) to_p ("a" ∷ []) esb stored_p [] (worker "1" 0) refl (λ e. cc) refl

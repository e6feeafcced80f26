-- ===== src/Tests/Start.antt =====
-- internal/control and internal/database: a start of all components, and a machine on which the indexes
-- and servers are functions.
use mock_server.Prelude.{
  ◌≡◌, ◌≢◌, ◌↔◌, refl, String, Bool, true, false, ◌&&◌, ◌||◌, [], ◌∷◌, ◌++◌, none, some, ◌==◌,
  if◌then◌else◌, arith, eq_refl,
}
use mock_server.Errors.{ok}
use mock_server.Database.Init.{
  Mongod, DatabaseConfig, MongoStorage, init, routes_collection, esb_records_collection,
  message_pools_collection, create_routes, create_task_messages, create_esb_records,
  create_message_pools,
}
use mock_server.Database.Init.Indexed.{IndexLaws, init-unique}
use mock_server.Database.Init.Running.{ServerLaws}
use mock_server.Configs.Service.{ServiceConfig, get_mp_task_scheduler_config, get_server_config}
use mock_server.Control
use mock_server.Control.{main, wait, Returns, start, stop, cancel, server_init_start}
use mock_server.Control.Order.{stops, main_calls, start-eq-ok_iff, CanServe, CanSchedule, CanRun}

record Machine : Type 0 where
  up : Bool
  indexes : String → String → Bool

-- The server of a variable without a value is `false`, and one that is started `true`.
abbrev mongod : Mongod
mongod = record {
  State = Machine;
  Server = Bool;
  zero = false;
  start = λ version s. (record s { up = true }, ok true);
  uri = λ v. "mongodb://localhost";
  stop = λ v s. if v then record s { up = false } else s;
  connect = λ uri s. (s, none);
  disconnect = λ s. (s, none);
  create_one = λ coll key unique s.
      (record s { indexes = λ c k. (coll == c && key == k) || s.indexes c k }, none);
}

unfoldable index_laws : IndexLaws mongod
index_laws = record {
  unique = λ s c k. s.indexes c k;
  create_ok = λ coll key s h. ground (arith, eq_refl coll, eq_refl key);
  create_keeps = λ coll key c k s h. ground arith;
}

abbrev is_up : Machine → Bool → Bool
is_up s v = v && s.up

not_stopped : (v w : Bool) (s : Machine) → v ≢ w → is_up (mongod.stop w s) v ≡ is_up s v
not_stopped true true s n = absurd (n refl)
not_stopped true false s n = refl
not_stopped false w s n = refl

unfoldable server_laws : ServerLaws mongod
server_laws = record {
  running = is_up;
  start_ok = λ version s v h. ((λ e. cc), ground arith);
  stop_other = not_stopped;
  connect_running = λ uri v s. refl;
  disconnect_running = λ v s. refl;
  create_running = λ coll key unique v s. refl;
}

abbrev machine : Machine
machine = record { up = false; indexes = λ c k. false }

abbrev nothing : MongoStorage
nothing = record {
  client = false;
  routes = none;
  task_messages = none;
  esb_records = none;
  message_pools = none;
}

abbrev cfg : DatabaseConfig
cfg = record { in_memory = true; cache_size = 100 }

init-unique_example :
    ((init mongod cfg (machine, nothing)).0.indexes routes_collection "path" ≡ true)
    × ((init mongod cfg (machine, nothing)).0.indexes esb_records_collection "pool_name_in" ≡ true)
    × ((init mongod cfg (machine, nothing)).0.indexes message_pools_collection "name" ≡ true)
unfolding index_laws init create_routes create_task_messages create_esb_records create_message_pools
init-unique_example = init-unique index_laws cfg machine nothing refl

abbrev returns : Returns
returns = record {
  init_db = λ cfg. none;
  new_file_storage_driver = none;
  serve = λ addr. none;
  init_watcher = λ cfg. none;
  shutdown = none;
  disconnect = none;
}

abbrev config : ServiceConfig
config = record {
  components = record { brokers = true; coderun = false; server = true };
  brokers = some (record { r_workers = 50; w_workers = 50; read_timeout = 10; write_timeout = 10 });
  coderun = none;
  server = some (record {
    addr = "127.0.0.1:1337";
    accept_timeout = 20;
    response_timeout = 20;
    deploy_production = false;
  });
  logs = record {
    level = 0;
    console_logging_enabled = true;
    file_logging_enabled = false;
    directory = "";
    filename = "log";
    max_size = 10;
    max_backups = 5;
    max_age = 14;
  };
  database = cfg;
}

main_calls_example :
    (main returns (ok config)).0
    ≡ (start returns (ok config)).0
      ++ wait ∷ cancel ∷ (stops (start returns (ok config)).0 ++ Control.disconnect ∷ [])
unfolding main start stop server_init_start get_mp_task_scheduler_config get_server_config
main_calls_example = main_calls returns (ok config) refl

start-eq-ok_iff_example : ((start returns (ok config)).1 ≡ ok config.components) ↔ (
    (returns.init_db config.database ≡ none)
    × (true ≡ true → CanServe returns config.server)
    × (true ≡ true → CanSchedule returns config.brokers)
    × (false ≡ true → CanRun returns config.coderun))
start-eq-ok_iff_example = start-eq-ok_iff returns config

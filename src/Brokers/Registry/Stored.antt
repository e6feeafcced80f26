-- ===== src/Brokers/Registry/Stored.antt =====
-- internal/brokers/registry.go: adding, removing and reading pools, and that a pool reads back as it
-- was added.
pub mod Caches
pub mod Lookup
use mock_server.Prelude.{◌≡◌, refl, String, Option, none, some}
use mock_server.Errors.{Error, Result, ok, err}
use text.Mathlib.TextLemmas
use mock_server.Database.Documents.{MessagePool}
use mock_server.Database.Driver.{Collection, Cache}
use mock_server.Database.Store.{Store}
use mock_server.Database.Records
use mock_server.Database.Records.{read_tasks_id, write_tasks_id}
use mock_server.Brokers.Registry.{
  Codec, CodecLaws, Clients, Pool, kafka, rabbitmq, get_name, get_queue, get_broker,
  get_json_config, read_task_id, write_task_id, create_from_database, create_broker_endpoint,
  remove_broker_endpoint,
}

-- The record of a pool, with its configuration as text.
abbrev pub record_of : (J : Codec) → Pool J → String → MessagePool
record_of J p config = record {
  name = get_name J p;
  queue = get_queue J p;
  broker = get_broker J p;
  config = config;
}

module _ (J : Codec) (B : Clients) (C : Collection) (K : Cache MessagePool) where
  pub record Registry : Type 0 where
    pub pools : Store C K
    pub brokers : B.State

  stored_pool : Pool J → Registry → Result String → Registry × Option Error
  stored_pool p s (err e) = (s, some e)
  stored_pool p s (ok config) =
      let (pools, e) = Records.add_message_pool C K (record_of J p config) s.pools in
      (record s { pools = pools }, e)

  created_pool : Registry → Pool J × B.State × Option Error → Registry × Option Error
  unfolding stored_pool
  created_pool s (p, brokers, some e) = (record s { brokers = brokers }, some e)
  created_pool s (p, brokers, none) =
      stored_pool p (record s { brokers = brokers }) (get_json_config J p)

  -- The endpoint is made first, then the record.
  unfoldable pub add_message_pool : Pool J → Registry → Registry × Option Error
  unfolding created_pool
  add_message_pool pool s = created_pool s (create_broker_endpoint J B pool s.brokers)

  pool_of : Result MessagePool → Result (Pool J)
  pool_of (err e) = err e
  pool_of (ok pool) = create_from_database J pool

  unfoldable pub get_message_pool : String → Registry → Registry × Result (Pool J)
  unfolding pool_of
  get_message_pool name s =
      let (pools, r) = Records.get_message_pool C K name s.pools in
      (record s { pools = pools }, pool_of r)

  removed_endpoint : String → Registry → B.State × Option Error → Registry × Option Error
  removed_endpoint name s (brokers, some e) = (record s { brokers = brokers }, some e)
  removed_endpoint name s (brokers, none) =
      let (pools, e) = Records.remove_message_pool C K name s.pools in
      (record { pools = pools; brokers = brokers }, e)

  removed_pool : String → Registry × Result (Pool J) → Registry × Option Error
  unfolding removed_endpoint
  removed_pool name (s, err e) = (s, some e)
  removed_pool name (s, ok pool) =
      removed_endpoint name s (remove_broker_endpoint J B pool s.brokers)

  unfoldable pub remove_message_pool : String → Registry → Registry × Option Error
  unfolding removed_pool
  remove_message_pool name s = removed_pool name (get_message_pool name s)

module _ {J : Codec} (L : CodecLaws J) where
  -- If Marshal succeeds on a pool's configuration, the record that AddMessagePool stores reads back
  -- as the pool with its whole configuration.
  pub create_from_database-record_of :
      (p : Pool J) (config : String)
      → get_json_config J p ≡ ok config
      → create_from_database J (record_of J p config) ≡ ok p
  unfolding create_from_database get_json_config get_name get_queue get_broker
  create_from_database-record_of (kafka mp) config h = rw (L.kafka_read _ config h) refl
  create_from_database-record_of (rabbitmq mp) config h = rw (L.rabbitmq_read _ config h) refl

-- The ids under which a pool's read and write tasks record their messages are those under which the
-- messages of its record are listed.
pub task_ids_agree :
    (J : Codec) (p : Pool J) (config : String)
    → (read_task_id J p ≡ read_tasks_id (record_of J p config))
      × (write_task_id J p ≡ write_tasks_id (record_of J p config))
unfolding read_task_id write_task_id read_tasks_id write_tasks_id
task_ids_agree J p config = (simp TextLemmas.append_assoc, simp TextLemmas.append_assoc)

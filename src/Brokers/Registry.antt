-- ===== src/Brokers/Registry.antt =====
-- internal/brokers/registry.go: pools of either broker, with their constructors and endpoints in
-- kafka.go and rabbitmq.go.
pub mod Stored
pub mod TaskIds
use mock_server.Prelude.{
  ◌≡◌, String, Bool, true, false, List, Option, none, some, ◌==◌, if◌then◌else◌,
}
use mock_server.Errors.{Error, failed, Result, ok, err}
use mock_server.Util.Text.{◌^◌}
use mock_server.Database.Documents.{MessagePool}
use mock_server.Database.Driver.{Collection, Cache}
use mock_server.Database.Store.{Store}
use mock_server.Database.Records
use mock_server.Brokers.Pools.Kafka
use mock_server.Brokers.Pools.Rabbitmq
use mock_server.Brokers.Pools.{
  KafkaMessagePoolConfig, KafkaMessagePool, RabbitMqPoolConfig, RabbitMqMessagePool,
}

-- encoding/json on the two configurations; `nil_args` is the nil map.
pub record Codec : Type 1 where
  pub Table : Type 0
  pub nil_args : Table
  pub marshal_kafka : KafkaMessagePoolConfig → Result String
  pub unmarshal_kafka : String → Result KafkaMessagePoolConfig
  pub marshal_rabbitmq : RabbitMqPoolConfig Table → Result String
  pub unmarshal_rabbitmq : String → Result (RabbitMqPoolConfig Table)

-- A text that Marshal has made is read back by Unmarshal.
pub record CodecLaws (J : Codec) : Type 0 where
  pub kafka_read :
      (c : KafkaMessagePoolConfig) (t : String)
      → J.marshal_kafka c ≡ ok t
      → J.unmarshal_kafka t ≡ ok c
  pub rabbitmq_read :
      (c : RabbitMqPoolConfig J.Table) (t : String)
      → J.marshal_rabbitmq c ≡ ok t
      → J.unmarshal_rabbitmq t ≡ ok c

-- `host` and the decimal digits of the port, of configs.GetKafkaConnectionConfig.
pub record KafkaConnection : Type 0 where
  pub host : String
  pub port : String
  pub client_id : String
  pub group_id : String

-- configs.GetRabbitMQConnectionConfig
pub record RabbitMqConnection : Type 0 where
  pub username : String
  pub password : String
  pub host : String
  pub port : String

-- The clients of the brokers, as far as endpoints need them, and what the configuration returns.
-- Connections that are made are closed again.
pub record Clients : Type 1 where
  pub State : Type 0
  pub kafka_connection : Result KafkaConnection
  pub new_admin_client : String → State → Option Error
  pub create_topics : String → String → State → State × Option Error  -- the address and the topic
  pub delete_topics : String → String → State → State × Option Error
  pub rabbitmq_connection : Result RabbitMqConnection
  pub dial : String → State → Option Error
  pub channel : String → State → Option Error
  pub queue_delete : String → String → State → State × Option Error

unfoldable pub kafka_connection_string : KafkaConnection → String
kafka_connection_string s = s.host ^ ":" ^ s.port

unfoldable pub rabbitmq_connection_string : RabbitMqConnection → String
rabbitmq_connection_string s =
    "amqp://" ^ s.username ^ ":" ^ s.password ^ "@" ^ s.host ^ ":" ^ s.port ^ "/"

unfoldable pub new_kafka_message_pool : String → String → KafkaMessagePool
new_kafka_message_pool name topic = record {
  name = name;
  topic = topic;
  tcfg = record { addr = ""; client_id = ""; group_id = "" };
  rcfg = record { offset_reset = "smallest" };
  wcfg = record { acks = "all" };
}

-- The task ids of both brokers' tasks.
unfoldable pub base_task_id : String → String → String → String
base_task_id broker name queue = broker ^ ":" ^ name ^ ":" ^ queue

module _ (J : Codec) where
  unfoldable pub new_rabbitmq_message_pool : String → String → RabbitMqMessagePool J.Table
  new_rabbitmq_message_pool name queue = record {
    name = name;
    queue = queue;
    qcfg = record {
      durable = false;
      auto_delete = false;
      exclusive = false;
      no_wait = false;
      args = J.nil_args;
    };
    rcfg = record {
      consumer = "";
      auto_ack = true;
      exclusive = false;
      no_local = false;
      no_wait = false;
      args = J.nil_args;
    };
    wcfg = record {
      exchange = "";
      mandatory = false;
      immediate = false;
      content_type = "text/plain";
    };
  }

  -- A value of the interface MessagePool.
  pub data Pool : Type 0 where
    kafka : KafkaMessagePool → Pool
    rabbitmq : RabbitMqMessagePool J.Table → Pool

  unfoldable pub get_name : Pool → String
  get_name (kafka mp) = Kafka.get_name mp
  get_name (rabbitmq mp) = Rabbitmq.get_name mp

  unfoldable pub get_queue : Pool → String
  get_queue (kafka mp) = Kafka.get_queue mp
  get_queue (rabbitmq mp) = Rabbitmq.get_queue mp

  unfoldable pub get_broker : Pool → String
  get_broker (kafka mp) = Kafka.get_broker mp
  get_broker (rabbitmq mp) = Rabbitmq.get_broker mp

  unfoldable pub get_json_config : Pool → Result String
  get_json_config (kafka mp) = J.marshal_kafka (Kafka.get_config mp)
  get_json_config (rabbitmq mp) = J.marshal_rabbitmq (Rabbitmq.get_config mp)

  unfoldable pub read_task_id : Pool → String
  unfolding base_task_id get_name get_queue get_broker
  read_task_id p = base_task_id (get_broker p) (get_name p) (get_queue p) ^ ":read"

  unfoldable pub write_task_id : Pool → String
  unfolding base_task_id get_name get_queue get_broker
  write_task_id p = base_task_id (get_broker p) (get_name p) (get_queue p) ^ ":write"

  abbrev pub read_kafka : MessagePool → Result KafkaMessagePoolConfig → Result Pool
  read_kafka pool (err e) = err e
  read_kafka pool (ok config) = ok (
      kafka (record {
        name = pool.name;
        topic = config.topic;
        tcfg = config.tcfg;
        rcfg = config.rcfg;
        wcfg = config.wcfg;
      }))

  abbrev pub read_rabbitmq : MessagePool → Result (RabbitMqPoolConfig J.Table) → Result Pool
  read_rabbitmq pool (err e) = err e
  read_rabbitmq pool (ok config) = ok (
      rabbitmq (record {
        name = pool.name;
        queue = config.queue;
        qcfg = config.qcfg;
        rcfg = config.rcfg;
        wcfg = config.wcfg;
      }))

  unfoldable pub create_from_database : MessagePool → Result Pool
  create_from_database pool =
      if pool.broker == "rabbitmq"
      then read_rabbitmq pool (J.unmarshal_rabbitmq pool.config)
      else if pool.broker == "kafka"
      then read_kafka pool (J.unmarshal_kafka pool.config)
      else err (failed "invalid message pool type")

  module _ (B : Clients) where
    -- CreateTopics after the address is known; the pool is changed whatever it returns.
    create_topic : KafkaMessagePool → B.State → Option Error → Pool × B.State × Option Error
    create_topic mp s (some e) = (kafka mp, s, some e)
    create_topic mp s none =
        let (s', e) = B.create_topics mp.tcfg.addr mp.topic s in (kafka mp, s', e)

    create_kafka_endpoint :
        KafkaMessagePool → B.State → Result KafkaConnection → Pool × B.State × Option Error
    unfolding create_topic kafka_connection_string
    create_kafka_endpoint mp s (err e) = (kafka mp, s, some e)
    create_kafka_endpoint mp s (ok cfg) =
        let addr = kafka_connection_string cfg in
        let mp' : KafkaMessagePool = record mp {
          tcfg = record { addr = addr; client_id = cfg.client_id; group_id = cfg.group_id };
        } in
        create_topic mp' s (B.new_admin_client addr s)

    -- CreateBrokerEndpoint, with the pool as it is afterwards.
    unfoldable pub create_broker_endpoint : Pool → B.State → Pool × B.State × Option Error
    unfolding create_kafka_endpoint
    create_broker_endpoint (kafka mp) s = create_kafka_endpoint mp s B.kafka_connection
    create_broker_endpoint (rabbitmq mp) s = (rabbitmq mp, s, none)

    delete_queue : String → String → B.State → Option Error → Option Error → B.State × Option Error
    delete_queue addr queue s (some e) channel = (s, some e)
    delete_queue addr queue s none (some e) = (s, some e)
    delete_queue addr queue s none none = B.queue_delete addr queue s

    remove_rabbitmq_endpoint : String → B.State → Result RabbitMqConnection → B.State × Option Error
    unfolding delete_queue rabbitmq_connection_string
    remove_rabbitmq_endpoint queue s (err e) = (s, some e)
    remove_rabbitmq_endpoint queue s (ok cfg) =
        let addr = rabbitmq_connection_string cfg in
        delete_queue addr queue s (B.dial addr s) (B.channel addr s)

    delete_topic : KafkaMessagePool → B.State → Option Error → B.State × Option Error
    delete_topic mp s (some e) = (s, some e)
    delete_topic mp s none = B.delete_topics mp.tcfg.addr mp.topic s

    unfoldable pub remove_broker_endpoint : Pool → B.State → B.State × Option Error
    unfolding delete_topic remove_rabbitmq_endpoint
    remove_broker_endpoint (kafka mp) s = delete_topic mp s (B.new_admin_client mp.tcfg.addr s)
    remove_broker_endpoint (rabbitmq mp) s =
        remove_rabbitmq_endpoint mp.queue s B.rabbitmq_connection

-- ===== src/Tests/Tasks.antt =====
-- internal/brokers with a broker, a database and workers that are lists.
use mock_server.Prelude.{
  ℕ, suc, ◌-◌, ◌≡◌, refl, String, ◌&&◌, ◌==◌, List, [], ◌∷◌, ◌++◌, none, some, arith,
}
use mock_server.Errors.{ok, err, failed}
use mock_server.Util.Tally.{tally}
use mock_server.Database.Documents.{TaskMessage, EsbRecord}
use mock_server.Brokers.Pools.{RabbitMqMessagePool, KafkaMessagePool}
use mock_server.Brokers.Registry.{new_rabbitmq_message_pool, new_kafka_message_pool}
use mock_server.Brokers.Tasks.{Services, ServicesLaws}
use mock_server.Brokers.Tasks.Rabbitmq.{
  Amqp, ReadEvent, message, tick, done, World, Reader, read_loop, write,
}
use mock_server.Brokers.Tasks.Rabbitmq.Received.{Passes, read_loop-passed}
use mock_server.Brokers.Tasks.Rabbitmq.Written.{AmqpLaws}
use mock_server.Brokers.Tasks.Kafka
use mock_server.Brokers.Tasks.Kafka.{KafkaClient}
use mock_server.Brokers.Tasks.Kafka.Received.{kafka_read_loop-passed}
use mock_server.Brokers.Tasks.Kafka.Written.{Stores, kafka_write-Stores}
use mock_server.Brokers.Tasks.Rabbitmq.Connections.{ConnectionLaws, qwrite, qwrite-open_connections}
use mock_server.Tests.Pools.{codec}

-- A channel that holds what was sent.
abbrev pub amqp : Amqp codec.Table
amqp = record {
  State = List (String × String);
  connection = err (failed "none");
  dial = λ addr s. (s, none);
  channel = λ s. (s, none);
  queue_declare = λ cfg q s. (s, ok q);
  consume = λ cfg q s. (s, none);
  publish = λ cfg q msg s. (s ++ (q, msg) ∷ [], none);
  close_channel = λ s. s;
  close_connection = λ s. s;
}

pub amqp_laws : AmqpLaws amqp
amqp_laws = record {
  sent = λ s. s;
  sent-publish = λ cfg q msg s h. refl;
  sent-publish_failed = λ cfg q msg s e h. cc;
}

abbrev pub pool : RabbitMqMessagePool codec.Table
pool = new_rabbitmq_message_pool codec "p" "q"

-- Services that keep the messages that are stored, and those that are passed on.
abbrev bus : Services
bus = record {
  State = List TaskMessage × List String;
  get_esb_record = λ name s. (s, err (failed "none"));
  add_task_message = λ t (stored, written). ((t ∷ stored, written), none);
  submit_to_esb = λ r msgs (stored, written). ((stored, written ++ msgs), none);
}

bus_laws : ServicesLaws bus
bus_laws = record {
  stored = λ s id m. tally (λ t. t.task_id == id && t.message == m) s.0;
  written = λ s. s.1;
  stored-get_esb_record = λ name s id m. refl;
  written-get_esb_record = λ name s. refl;
  stored-add_task_message = λ t s id m h. omega arith;
  stored-add_failed = λ t s e id m h. cc;
  written-add_task_message = λ t s. refl;
  stored-submit_to_esb = λ r msgs s id m. refl;
  written-submit_to_esb = λ r msgs s plain h. refl;
  written-submit_failed = λ r msgs s e h. cc;
}

abbrev plain : EsbRecord
plain = record { pool_name_in = "p"; pool_name_out = "o"; mapper_script_name = "" }

abbrev events : List ReadEvent
events = message "a" ∷ tick ∷ message "b" ∷ done ∷ []

abbrev reader : Reader codec amqp bus
reader = record { services = ([], []); msgs = [] }

read_loop-passed_example :
    Passes bus_laws events reader (read_loop codec amqp bus pool (some plain) events reader)
read_loop-passed_example = read_loop-passed bus_laws pool plain events reader refl

abbrev world : World codec amqp bus
world = record { amqp = []; services = ([], []) }

abbrev client : KafkaClient
client = record {
  State = Unit {0};
  new_consumer = λ addr group reset s. (s, none);
  subscribe_topics = λ topics s. (s, none);
  close_consumer = λ s. s;
  new_producer = λ addr client_id acks s. (s, none);
  produce = λ topic msg s. (s, none);
  close_producer = λ s. s;
}

abbrev topic : KafkaMessagePool
topic = new_kafka_message_pool "p" "t"

abbrev polled : List Kafka.Polled
polled = Kafka.message "a" ∷ Kafka.other ∷ Kafka.message "b" ∷ []

abbrev poller : Kafka.Reader codec client bus
poller = Kafka.new_reader codec client bus ([], [])

kafka_read_loop-passed_example :
    let t = Kafka.read_loop codec client bus topic (some plain) polled poller in
    t.services.1 ++ t.msgs ≡ "a" ∷ "b" ∷ []
unfolding bus_laws Kafka.read_loop Kafka.read_event mock_server.Brokers.Tasks.submit_pending
kafka_read_loop-passed_example =
    kafka_read_loop-passed bus_laws topic plain polled poller refl refl refl refl

abbrev reports : List Kafka.Report
reports = Kafka.delivered "b" ∷ Kafka.delivered "a" ∷ Kafka.undelivered (failed "late") ∷ []

abbrev producer : Kafka.World codec client bus
producer = record { client = tt; services = ([], []) }

kafka_write-Stores_example :
    Stores codec client bus_laws topic 2 reports
      ([], [])
      (Kafka.write codec client bus topic ("a" ∷ "b" ∷ []) reports producer).0.services
unfolding Kafka.write Kafka.produce_all Kafka.collect_reports
kafka_write-Stores_example =
    kafka_write-Stores codec client bus_laws topic ("a" ∷ "b" ∷ []) reports producer refl

-- A server that is reached and declares no queue; the state counts the connections.
abbrev refusing : Amqp codec.Table
refusing = record {
  State = ℕ;
  connection = ok (record { host = "h"; port = "5672"; username = "u"; password = "p" });
  dial = λ addr s. (suc s, none);
  channel = λ s. (s, none);
  queue_declare = λ cfg q s. (s, err (failed "access refused"));
  consume = λ cfg q s. (s, none);
  publish = λ cfg q msg s. (s, none);
  close_channel = λ s. s;
  close_connection = λ s. s - 1;
}

refusing_laws : ConnectionLaws refusing
refusing_laws = record {
  open_connections = λ s. s;
  dial_ok = λ addr s h. refl;
  channel_same = λ s. refl;
  declare_same = λ cfg q s. refl;
  consume_same = λ cfg q s. refl;
  publish_same = λ cfg q msg s. refl;
  close_channel_same = λ s. refl;
  close_connection_one = λ s. refl;
}

qwrite-open_connections_example :
    (qwrite codec refusing bus pool ("a" ∷ []) (record { amqp = 0; services = ([], []) })).0.amqp
    ≡ 1
unfolding refusing_laws qwrite mock_server.Brokers.Tasks.Rabbitmq.connect_and_prepare
qwrite-open_connections_example =
    qwrite-open_connections codec refusing bus refusing_laws pool ("a" ∷ [])
      (record { amqp = 0; services = ([], []) })
      (record { host = "h"; port = "5672"; username = "u"; password = "p" }, refl, refl)

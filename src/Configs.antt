-- ===== src/Configs.antt =====
-- internal/configs/brokers_cfg.go: the connections to the brokers, from the configuration file and the
-- environment.
pub mod Service
use mock_server.Prelude.{
  ◌≡◌, refl, String, Bool, true, false, Option, none, some, ◌==◌, if◌then◌else◌, arith,
}
use mock_server.Errors.{Error, failed, Result, ok, err}
use mock_server.Util.Text.{◌^◌}
use mock_server.Brokers.Registry.{KafkaConnection, RabbitMqConnection}

-- os.LookupEnv, and strconv.Atoi: the decimal digits of the number, which is 0 for a text that is none,
-- beside the error.
pub record Environment : Type 0 where
  pub lookup : String → Option String
  pub atoi : String → String × Option Error

-- What of the configuration is read here; each `done` is that of a sync.Once.
pub record BrokersConfig : Type 0 where
  pub rabbitmq : RabbitMqConnection
  pub kafka : KafkaConnection
  pub rabbitmq_done : Bool
  pub kafka_done : Bool

-- `if ok { … = value }`
abbrev pub set_by : Option String → String → String
set_by none old = old
set_by (some value) old = value

taken_port : Bool → String × Option Error → String → String
taken_port true (port, some e) old = port
taken_port is_set (port, e) old = old

module _ (env : Environment) where
  -- `if port, err := strconv.Atoi(s); ok && err != nil`, where `s` is empty if it is not set.
  unfoldable pub port_of : Option String → String → String
  unfolding taken_port
  port_of none old = taken_port false (env.atoi "") old
  port_of (some s) old = taken_port true (env.atoi s) old

  unfoldable pub rabbitmq_connection_config_init : RabbitMqConnection → RabbitMqConnection
  rabbitmq_connection_config_init c = record {
    username = set_by (env.lookup "RABBITMQ_USERNAME") c.username;
    password = set_by (env.lookup "RABBITMQ_PASSWORD") c.password;
    host = set_by (env.lookup "RABBITMQ_HOST") c.host;
    port = port_of (env.lookup "RABBITMQ_PORT") c.port;
  }

  unfoldable pub kafka_connection_config_init : KafkaConnection → KafkaConnection
  kafka_connection_config_init c = record {
    host = set_by (env.lookup "KAFKA_HOST") c.host;
    port = port_of (env.lookup "KAFKA_PORT") c.port;
    client_id = set_by (env.lookup "CLIENT_ID") c.client_id;
    group_id = set_by (env.lookup "GROUP_ID") c.group_id;
  }

  unfoldable pub rabbitmq_once : BrokersConfig → BrokersConfig
  rabbitmq_once s =
      if s.rabbitmq_done
      then s
      else record s { rabbitmq = rabbitmq_connection_config_init s.rabbitmq; rabbitmq_done = true }

  unfoldable pub kafka_once : BrokersConfig → BrokersConfig
  kafka_once s =
      if s.kafka_done
      then s
      else record s { kafka = kafka_connection_config_init s.kafka; kafka_done = true }

  abbrev pub defined : {T : Type 0} → String → String → T → Result T
  defined broker host c =
      if host == ""
      then err (failed ("connection config to broker: " ^ broker ^ " is not provided"))
      else ok c

  unfoldable pub get_rabbitmq_connection_config :
      BrokersConfig → BrokersConfig × Result RabbitMqConnection
  get_rabbitmq_connection_config s =
      let s' = rabbitmq_once s in (s', defined "RabbitMQ" s'.rabbitmq.host s'.rabbitmq)

  unfoldable pub get_kafka_connection_config :
      BrokersConfig → BrokersConfig × Result KafkaConnection
  get_kafka_connection_config s =
      let s' = kafka_once s in (s', defined "kafka" s'.kafka.host s'.kafka)

  port_ignored :
      (set : Option String) (old : String)
      → ((s : String) → set ≡ some s → (env.atoi s).1 ≡ none)
      → port_of set old ≡ old
  unfolding port_of taken_port
  port_ignored none old valid = refl
  port_ignored (some s) old valid = rw (port_of, valid s refl) refl

  -- Where RABBITMQ_PORT and KAFKA_PORT, if they are set, hold numbers, the connections have the
  -- ports that they had before the environment was read.
  pub env_port_ignored :
      (s : BrokersConfig)
      → ((value : String) → env.lookup "RABBITMQ_PORT" ≡ some value → (env.atoi value).1 ≡ none)
      → ((value : String) → env.lookup "KAFKA_PORT" ≡ some value → (env.atoi value).1 ≡ none)
      → ((get_rabbitmq_connection_config s).0.rabbitmq.port ≡ s.rabbitmq.port)
        × ((get_kafka_connection_config s).0.kafka.port ≡ s.kafka.port)
  unfolding get_rabbitmq_connection_config get_kafka_connection_config rabbitmq_once kafka_once
      rabbitmq_connection_config_init kafka_connection_config_init
  env_port_ignored s valid valid' =
      let one = port_ignored (env.lookup "RABBITMQ_PORT") s.rabbitmq.port valid in
      let two = port_ignored (env.lookup "KAFKA_PORT") s.kafka.port valid' in
      (ground (arith, one), ground (arith, two))

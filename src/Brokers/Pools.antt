-- ===== src/Brokers/Pools.antt =====
-- internal/brokers/kafka.go and rabbitmq.go: the pools with their configurations.
pub mod Kafka
pub mod Rabbitmq
use mock_server.Prelude.{String, Bool}

-- kafka.go

pub record KafkaTopicConfig : Type 0 where
  pub addr : String
  pub client_id : String
  pub group_id : String

pub record KafkaReadConfig : Type 0 where
  pub offset_reset : String

pub record KafkaWriteConfig : Type 0 where
  pub acks : String

pub record KafkaMessagePoolConfig : Type 0 where
  pub topic : String
  pub tcfg : KafkaTopicConfig
  pub rcfg : KafkaReadConfig
  pub wcfg : KafkaWriteConfig

pub record KafkaMessagePool : Type 0 where
  pub name : String
  pub topic : String
  pub tcfg : KafkaTopicConfig
  pub rcfg : KafkaReadConfig
  pub wcfg : KafkaWriteConfig

-- rabbitmq.go; the table of arguments is a value of the AMQP client.

pub record RabbitMqQueueConfig (Table : Type 0) : Type 0 where
  pub durable : Bool
  pub auto_delete : Bool
  pub exclusive : Bool
  pub no_wait : Bool
  pub args : Table

pub record RabbitMqReadConfig (Table : Type 0) : Type 0 where
  pub consumer : String
  pub auto_ack : Bool
  pub exclusive : Bool
  pub no_local : Bool
  pub no_wait : Bool
  pub args : Table

pub record RabbitMqWriteConfig : Type 0 where
  pub exchange : String
  pub mandatory : Bool
  pub immediate : Bool
  pub content_type : String

pub record RabbitMqPoolConfig (Table : Type 0) : Type 0 where
  pub queue : String
  pub qcfg : RabbitMqQueueConfig Table
  pub rcfg : RabbitMqReadConfig Table
  pub wcfg : RabbitMqWriteConfig

pub record RabbitMqMessagePool (Table : Type 0) : Type 0 where
  pub name : String
  pub queue : String
  pub qcfg : RabbitMqQueueConfig Table
  pub rcfg : RabbitMqReadConfig Table
  pub wcfg : RabbitMqWriteConfig

-- The setters, which give the pool back.

unfoldable pub set_kafka_read_config : KafkaReadConfig → KafkaMessagePool → KafkaMessagePool
set_kafka_read_config cfg mp = record mp { rcfg = cfg }

unfoldable pub set_kafka_write_config : KafkaWriteConfig → KafkaMessagePool → KafkaMessagePool
set_kafka_write_config cfg mp = record mp { wcfg = cfg }

module _ {Table : Type 0} where
  unfoldable pub set_queue_config :
      RabbitMqQueueConfig Table → RabbitMqMessagePool Table → RabbitMqMessagePool Table
  set_queue_config cfg mp = record mp { qcfg = cfg }

  unfoldable pub set_read_config :
      RabbitMqReadConfig Table → RabbitMqMessagePool Table → RabbitMqMessagePool Table
  set_read_config cfg mp = record mp { rcfg = cfg }

  unfoldable pub set_write_config :
      RabbitMqWriteConfig → RabbitMqMessagePool Table → RabbitMqMessagePool Table
  set_write_config cfg mp = record mp { wcfg = cfg }

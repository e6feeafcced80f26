-- ===== src/Brokers/Pools/Rabbitmq.antt =====
-- internal/brokers/rabbitmq.go: the methods of RabbitMQMessagePool that read it.
use mock_server.Prelude.{String}
use mock_server.Brokers.Pools.{RabbitMqMessagePool, RabbitMqPoolConfig}

module _ {Table : Type 0} where
  abbrev pub get_name : RabbitMqMessagePool Table → String
  get_name mp = mp.name

  abbrev pub get_queue : RabbitMqMessagePool Table → String
  get_queue mp = mp.queue

  abbrev pub get_broker : RabbitMqMessagePool Table → String
  get_broker mp = "rabbitmq"

  abbrev pub get_config : RabbitMqMessagePool Table → RabbitMqPoolConfig Table
  get_config mp = record { queue = mp.queue; qcfg = mp.qcfg; rcfg = mp.rcfg; wcfg = mp.wcfg }

-- ===== src/Brokers/Pools/Kafka.antt =====
-- internal/brokers/kafka.go: the methods of KafkaMessagePool that read it.
use mock_server.Prelude.{String}
use mock_server.Brokers.Pools.{KafkaMessagePool, KafkaMessagePoolConfig}

abbrev pub get_name : KafkaMessagePool → String
get_name mp = mp.name

abbrev pub get_queue : KafkaMessagePool → String
get_queue mp = mp.topic

abbrev pub get_broker : KafkaMessagePool → String
get_broker mp = "kafka"

abbrev pub get_config : KafkaMessagePool → KafkaMessagePoolConfig
get_config mp = record { topic = mp.topic; tcfg = mp.tcfg; rcfg = mp.rcfg; wcfg = mp.wcfg }

-- ===== src/Tests/Pools.antt =====
-- internal/brokers/registry.go with a codec that knows the configuration of new Kafka pools, and the
-- lists of pools of internal/server/pool_brokers_api.go.
use mock_server.Prelude.{String, ◌&&◌, ◌==◌, if◌then◌else◌, arith, eq_iff}
use mock_server.Errors.{Result, ok, err, failed}
use mock_server.Brokers.Pools.{KafkaMessagePoolConfig}
use mock_server.Brokers.Registry.{Codec, CodecLaws, Pool, kafka, new_kafka_message_pool}

abbrev pub new_config : KafkaMessagePoolConfig
new_config = record {
  topic = "t";
  tcfg = record { addr = ""; client_id = ""; group_id = "" };
  rcfg = record { offset_reset = "smallest" };
  wcfg = record { acks = "all" };
}

-- The configuration that the codec knows is the first argument.
abbrev pub marshal : KafkaMessagePoolConfig → KafkaMessagePoolConfig → Result String
marshal known c =
    if c.topic == known.topic
      && c.tcfg.addr == known.tcfg.addr
      && c.tcfg.client_id == known.tcfg.client_id
      && c.tcfg.group_id == known.tcfg.group_id
      && c.rcfg.offset_reset == known.rcfg.offset_reset
      && c.wcfg.acks == known.wcfg.acks
    then ok "known"
    else err (failed "unknown")

abbrev pub codec_of : KafkaMessagePoolConfig → Codec
codec_of known = record {
  Table = Unit;
  nil_args = tt;
  marshal_kafka = marshal known;
  unmarshal_kafka = λ t. ok known;
  marshal_rabbitmq = λ c. err (failed "unknown");
  unmarshal_rabbitmq = λ t. err (failed "unknown");
}

pub codec_laws : (known : KafkaMessagePoolConfig) → CodecLaws (codec_of known)
codec_laws known = record {
  kafka_read = λ c t h. ground (
    arith,
    eq_iff c.topic known.topic,
    eq_iff c.tcfg.addr known.tcfg.addr,
    eq_iff c.tcfg.client_id known.tcfg.client_id,
    eq_iff c.tcfg.group_id known.tcfg.group_id,
    eq_iff c.rcfg.offset_reset known.rcfg.offset_reset,
    eq_iff c.wcfg.acks known.wcfg.acks,
  );
  rabbitmq_read = λ c t h. cc;
}

abbrev pub codec : Codec
codec = codec_of new_config

abbrev pub pool : Pool codec
pool = kafka (new_kafka_message_pool "p" "t")

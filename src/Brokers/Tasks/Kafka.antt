-- ===== src/Brokers/Tasks/Kafka.antt =====
-- internal/brokers/kafka.go: reading and writing. What Poll returns and what arrives on the delivery
-- channel are lists of events.
pub mod Received
pub mod Written
use mock_server.Prelude.{
  ℕ, zero, suc, String, Bool, true, false, List, [], ◌∷◌, ◌++◌, Option, none, some, length,
  if◌then◌else◌,
}
use mock_server.Errors.{Error, failed, Result, ok, err}
use mock_server.Database.Documents.{EsbRecord, TaskMessage}
use mock_server.Brokers.Pools.{KafkaMessagePool}
use mock_server.Brokers.Registry.{Codec, kafka, read_task_id, write_task_id}
use mock_server.Brokers.Tasks.{Services, record_for, submit_pending}

-- The Kafka client. A consumer is made of the servers, the group and the offset reset, and a producer
-- of the servers, the client id and the acks; `produce` takes the topic and the value.
pub record KafkaClient : Type 1 where
  pub State : Type 0
  pub new_consumer : String → String → String → State → State × Option Error
  pub subscribe_topics : List String → State → State × Option Error
  pub close_consumer : State → State
  pub new_producer : String → String → String → State → State × Option Error
  pub produce : String → String → State → State × Option Error
  pub close_producer : State → State

-- What Poll returns: a message, an error, or anything else, nil included.
pub data Polled : Type 0 where
  message : String → Polled
  error : Error → Polled
  other : Polled

-- What the select of `write` receives: a delivery report with the message's value, or that the
-- context is done.
pub data Report : Type 0 where
  delivered : String → Report
  undelivered : Error → Report
  deadline : Report

module _ (J : Codec) (A : KafkaClient) (S : Services) where
  pub record World : Type 0 where
    pub client : A.State
    pub services : S.State

  -- The reader between two calls of Poll: `t.msgs`, `err` and `run` beside the services.
  pub record Reader : Type 0 where
    pub services : S.State
    pub msgs : List String
    pub err : Option Error
    pub running : Bool

  -- The test is of `err`, the variable of the whole function.
  stored_message : Reader → S.State × Option Error → Reader
  stored_message t (s, database_err) = elim t.err [
    | none ↦ record t { services = s }
    | some e ↦ record t { services = s; err = database_err; running = false }
  ]

  submitted : Reader → S.State × Option (Option Error) → Reader
  submitted t (s, none) = record t { services = s }
  submitted t (s, some none) = record t { services = s; msgs = [] }
  submitted t (s, some (some e)) = record t {
    services = s;
    msgs = [];
    err = some e;
    running = false;
  }

  -- A round of the goroutine's loop.
  unfoldable pub read_event : KafkaMessagePool → Option EsbRecord → Polled → Reader → Reader
  unfolding stored_message submitted
  read_event pool esb_record (message value) t =
      stored_message (record t { msgs = t.msgs ++ value ∷ [] })
        (S.add_task_message (record { task_id = read_task_id J (kafka pool); message = value })
          t.services)
  read_event pool esb_record (error e) t = record t { err = some e; running = false }
  read_event pool esb_record other t = submitted t (submit_pending S esb_record t.msgs t.services)

  -- The loop, on what Poll returns until the context is done.
  unfoldable pub read_loop : KafkaMessagePool → Option EsbRecord → List Polled → Reader → Reader
  read_loop pool esb_record [] t = t
  read_loop pool esb_record (e ∷ es) t =
      if t.running then read_loop pool esb_record es (read_event pool esb_record e t) else t

  abbrev pub new_reader : S.State → Reader
  new_reader s = record { services = s; msgs = []; err = none; running = true }

  -- After both the consumer and the subscription. The deferred call closes the consumer.
  read_subscribed :
      KafkaMessagePool
      → List Polled
      → A.State
      → S.State × Result (Option EsbRecord)
      → World × Option Error
  read_subscribed pool es client (s, err e) =
      (record { client = A.close_consumer client; services = s }, some e)
  read_subscribed pool es client (s, ok esb_record) =
      let t = read_loop pool esb_record es (new_reader s) in
      (record { client = A.close_consumer client; services = t.services }, t.err)

  unfoldable pub read : KafkaMessagePool → List Polled → World → World × Option Error
  unfolding read_subscribed
  read pool es s =
      let (client, e) =
        A.new_consumer pool.tcfg.addr pool.tcfg.group_id pool.rcfg.offset_reset s.client in
      elim e [
        | some failure ↦ (record s { client = client }, some failure)
        | none ↦
            let (client', e') = A.subscribe_topics (pool.topic ∷ []) client in
            elim e' [
              | some failure ↦ (record s { client = A.close_consumer client' }, some failure)
              | none ↦
                  let (services, r) = S.get_esb_record pool.name s.services in
                  read_subscribed pool es client' (services, record_for r)
            ]
      ]

  unfoldable pub produce_all : KafkaMessagePool → List String → A.State → A.State × Option Error
  produce_all pool [] s = (s, none)
  produce_all pool (msg ∷ msgs) s =
      let (s', e) = A.produce pool.topic msg s in
      elim e [ some failure ↦ (s', some failure) | none ↦ produce_all pool msgs s' ]

  -- The second loop of `write`, which waits for as many reports; the result is `none` if it is still
  -- waiting after them.
  unfoldable pub collect_reports :
      KafkaMessagePool → ℕ → List Report → S.State → S.State × Option (Option Error)
  collect_reports pool zero es s = (s, some none)
  collect_reports pool (suc n) [] s = (s, none)
  collect_reports pool (suc n) (deadline ∷ es) s =
      (s, some (some (failed "timeout to write batch")))
  collect_reports pool (suc n) (undelivered e ∷ es) s = (s, some (some e))
  collect_reports pool (suc n) (delivered value ∷ es) s =
      let (s', e) =
        S.add_task_message (record { task_id = write_task_id J (kafka pool); message = value }) s in
      elim e [ some failure ↦ (s', some (some failure)) | none ↦ collect_reports pool n es s' ]

  unfoldable pub write :
      KafkaMessagePool → List String → List Report → World → World × Option (Option Error)
  write pool msgs es s =
      let (client, e) = A.new_producer pool.tcfg.addr pool.tcfg.client_id pool.wcfg.acks s.client in
      elim e [
        | some failure ↦ (record s { client = client }, some (some failure))
        | none ↦
            let (client', e') = produce_all pool msgs client in
            elim e' [
              | some failure ↦ (record s { client = A.close_producer client' }, some (some failure))
              | none ↦
                  let (services, r) = collect_reports pool (length msgs) es s.services in
                  (record { client = A.close_producer client'; services = services }, r)
            ]
      ]

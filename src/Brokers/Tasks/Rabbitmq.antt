-- ===== src/Brokers/Tasks/Rabbitmq.antt =====
-- internal/brokers/rabbitmq.go: connecting, reading and writing. What the select of the read loop
-- receives is a list of events.
pub mod Received
pub mod Written
pub mod Connections
use mock_server.Prelude.{String, Bool, true, false, List, [], ◌∷◌, ◌++◌, Option, none, some}
use mock_server.Errors.{Error, Result, ok, err}
use mock_server.Database.Documents.{EsbRecord, TaskMessage}
use mock_server.Brokers.Pools.{
  RabbitMqQueueConfig, RabbitMqReadConfig, RabbitMqWriteConfig, RabbitMqMessagePool,
}
use mock_server.Brokers.Registry.{
  Codec, RabbitMqConnection, rabbitmq_connection_string, rabbitmq, read_task_id, write_task_id,
}
use mock_server.Brokers.Tasks.{Services, record_for, submit_pending}

-- The AMQP client, with the configuration's connection. `publish` takes the queue and the body.
pub record Amqp (Table : Type 0) : Type 1 where
  pub State : Type 0
  pub connection : Result RabbitMqConnection
  pub dial : String → State → State × Option Error
  pub channel : State → State × Option Error
  pub queue_declare : RabbitMqQueueConfig Table → String → State → State × Result String
  pub consume : RabbitMqReadConfig Table → String → State → State × Option Error
  pub publish : RabbitMqWriteConfig → String → String → State → State × Option Error
  pub close_channel : State → State
  pub close_connection : State → State

-- What the select receives: a message, a tick, or that the context is done.
pub data ReadEvent : Type 0 where
  message : String → ReadEvent
  tick : ReadEvent
  done : ReadEvent

module _ (J : Codec) (A : Amqp J.Table) where
  declare_queue : RabbitMqMessagePool J.Table → A.State × Option Error → A.State × Result String
  declare_queue pool (s, some e) = (s, err e)
  declare_queue pool (s, none) = A.queue_declare pool.qcfg pool.queue s

  open_channel : RabbitMqMessagePool J.Table → A.State × Option Error → A.State × Result String
  unfolding declare_queue
  open_channel pool (s, some e) = (s, err e)
  open_channel pool (s, none) = declare_queue pool (A.channel s)

  connect :
      RabbitMqMessagePool J.Table → A.State → Result RabbitMqConnection → A.State × Result String
  unfolding open_channel rabbitmq_connection_string
  connect pool s (err e) = (s, err e)
  connect pool s (ok cfg) = open_channel pool (A.dial (rabbitmq_connection_string cfg) s)

  -- connectAndPrepare, with the name of the queue.
  unfoldable pub connect_and_prepare :
      RabbitMqMessagePool J.Table → A.State → A.State × Result String
  unfolding connect
  connect_and_prepare pool s = connect pool s A.connection

  unfoldable pub close : A.State → A.State
  close s = A.close_connection (A.close_channel s)

  module _ (S : Services) where
    pub record World : Type 0 where
      pub amqp : A.State
      pub services : S.State

    -- One round of the loop of `write`: publishing, then storing.
    unfoldable pub write_message :
        RabbitMqMessagePool J.Table → String → String → World → World × Option Error
    write_message pool q msg s =
        let (amqp, e) = A.publish pool.wcfg q msg s.amqp in
        elim e [
          | some failure ↦ (record s { amqp = amqp }, some failure)
          | none ↦
              let (services, e') =
                S.add_task_message
                  (record { task_id = write_task_id J (rabbitmq pool); message = msg })
                  s.services in
              (record { amqp = amqp; services = services }, e')
        ]

    unfoldable pub write :
        RabbitMqMessagePool J.Table → String → List String → World → World × Option Error
    write pool q [] s = (s, none)
    write pool q (msg ∷ msgs) s =
        let (s', e) = write_message pool q msg s in
        elim e [ some failure ↦ (s', some failure) | none ↦ write pool q msgs s' ]

    -- The reader between two rounds: the services, and `t.msgs`.
    pub record Reader : Type 0 where
      pub services : S.State
      pub msgs : List String

    -- What a round of the loop of `read` ends with: `none` goes on.
    read_tick : Reader → S.State × Option (Option Error) → Reader × Option (Option Error)
    read_tick t (s, none) = (record t { services = s }, none)
    read_tick t (s, some (some e)) = (record t { services = s }, some (some e))
    read_tick t (s, some none) = (record { services = s; msgs = [] }, none)

    read_stored : Reader → S.State × Option Error → Reader × Option (Option Error)
    read_stored t (s, some e) = (record t { services = s }, some (some e))
    read_stored t (s, none) = (record t { services = s }, none)

    unfoldable pub read_event :
        RabbitMqMessagePool J.Table
        → Option EsbRecord
        → ReadEvent
        → Reader
        → Reader × Option (Option Error)
    unfolding read_tick read_stored
    read_event pool esb_record done t = (t, some none)
    read_event pool esb_record (message body) t =
        read_stored (record t { msgs = t.msgs ++ body ∷ [] })
          (S.add_task_message (record { task_id = read_task_id J (rabbitmq pool); message = body })
            t.services)
    read_event pool esb_record tick t = read_tick t (submit_pending S esb_record t.msgs t.services)

    -- The loop, on the events that come: the result is `none` if it is still running after them.
    unfoldable pub read_loop :
        RabbitMqMessagePool J.Table
        → Option EsbRecord
        → List ReadEvent
        → Reader
        → Reader × Option (Option Error)
    read_loop pool esb_record [] t = (t, none)
    read_loop pool esb_record (e ∷ es) t =
        let (t', r) = read_event pool esb_record e t in
        elim r [ some result ↦ (t', some result) | none ↦ read_loop pool esb_record es t' ]

    read_with :
        RabbitMqMessagePool J.Table
        → List ReadEvent
        → List String
        → S.State × Result (Option EsbRecord)
        → Reader × Option (Option Error)
    read_with pool es msgs (s, err e) = (record { services = s; msgs = msgs }, some (some e))
    read_with pool es msgs (s, ok esb_record) =
        read_loop pool esb_record es (record { services = s; msgs = msgs })

    -- `read` from the Consume on; a new task has no messages.
    unfoldable pub read :
        RabbitMqMessagePool J.Table
        → String
        → List ReadEvent
        → World
        → A.State × Reader × Option (Option Error)
    unfolding read_with
    read pool q es s =
        let (amqp, e) = A.consume pool.rcfg q s.amqp in
        elim e [
          | some failure ↦ (amqp, record { services = s.services; msgs = [] }, some (some failure))
          | none ↦
              let (services, r) = S.get_esb_record pool.name s.services in
              let (t, result) = read_with pool es [] (services, record_for r) in (amqp, t, result)
        ]

-- ===== src/Brokers/Tasks/Rabbitmq/Connections.antt =====
-- internal/brokers/mp_task_scheduler.go, qread and qwrite, on the tasks of internal/brokers/rabbitmq.go:
-- which connections a task leaves open.
use mock_server.Prelude.{
  ℕ, suc, ◌+◌, ◌-◌, ◌≡◌, refl, ap, ◌∙◌, inl, inr, String, List, [], ◌∷◌, Option, none, some, arith,
  Option-cases,
}
use mock_server.Errors.{Error, Result, ok, err, Result-cases}
use mock_server.Brokers.Pools.{
  RabbitMqQueueConfig, RabbitMqReadConfig, RabbitMqWriteConfig, RabbitMqMessagePool,
}
use mock_server.Brokers.Registry.{Codec, RabbitMqConnection, rabbitmq_connection_string}
use mock_server.Brokers.Tasks.{Services}
use mock_server.Brokers.Tasks.Rabbitmq.{
  Amqp, ReadEvent, World, Reader, connect_and_prepare, connect, open_channel, declare_queue, close,
  write_message, write, read,
}

module _ (J : Codec) (A : Amqp J.Table) (S : Services) (pool : RabbitMqMessagePool J.Table) where
  closing : World J A S × Option Error → World J A S × Option Error
  closing (s, e) = (record s { amqp = close J A s.amqp }, e)

  -- `task.close` is deferred only after connectAndPrepare has returned nil.
  write_prepared : List String → World J A S → A.State × Result String → World J A S × Option Error
  unfolding closing
  write_prepared msgs s (amqp, err e) = (record s { amqp = amqp }, some e)
  write_prepared msgs s (amqp, ok q) = closing (write J A S pool q msgs (record s { amqp = amqp }))

  unfoldable pub qwrite : List String → World J A S → World J A S × Option Error
  unfolding write_prepared
  qwrite msgs s = write_prepared msgs s (connect_and_prepare J A pool s.amqp)

  closed : A.State × Reader J A S × Option (Option Error) → World J A S × Option (Option Error)
  closed (amqp, t, none) = (record { amqp = amqp; services = t.services }, none)
  closed (amqp, t, some r) = (record { amqp = close J A amqp; services = t.services }, some r)

  read_prepared :
      List ReadEvent → World J A S → A.State × Result String → World J A S × Option (Option Error)
  unfolding closed
  read_prepared es s (amqp, err e) = (record s { amqp = amqp }, some (some e))
  read_prepared es s (amqp, ok q) = closed (read J A S pool q es (record s { amqp = amqp }))

  -- The result is `none` if the loop is still running after the events.
  unfoldable pub qread : List ReadEvent → World J A S → World J A S × Option (Option Error)
  unfolding read_prepared
  qread es s = read_prepared es s (connect_and_prepare J A pool s.amqp)

-- How many connections have been dialled and not closed.
pub record ConnectionLaws {Table : Type 0} (A : Amqp Table) : Type 0 where
  pub open_connections : A.State → ℕ
  pub dial_ok :
      (url : String) (s : A.State)
      → (A.dial url s).1 ≡ none
      → open_connections (A.dial url s).0 ≡ suc (open_connections s)
  pub channel_same : (s : A.State) → open_connections (A.channel s).0 ≡ open_connections s
  pub declare_same :
      (cfg : RabbitMqQueueConfig Table) (queue : String) (s : A.State)
      → open_connections (A.queue_declare cfg queue s).0 ≡ open_connections s
  pub consume_same :
      (cfg : RabbitMqReadConfig Table) (queue : String) (s : A.State)
      → open_connections (A.consume cfg queue s).0 ≡ open_connections s
  pub publish_same :
      (cfg : RabbitMqWriteConfig) (queue body : String) (s : A.State)
      → open_connections (A.publish cfg queue body s).0 ≡ open_connections s
  pub close_channel_same : (s : A.State) → open_connections (A.close_channel s) ≡ open_connections s
  pub close_connection_one :
      (s : A.State) → open_connections (A.close_connection s) ≡ open_connections s - 1

module _ (J : Codec) (A : Amqp J.Table) (C : ConnectionLaws A)
    (pool : RabbitMqMessagePool J.Table) where
  close-open_connections :
      (s : A.State) → C.open_connections (close J A s) ≡ C.open_connections s - 1
  unfolding close
  close-open_connections s =
      C.close_connection_one (A.close_channel s) ∙ ap (λ n. n - 1) (C.close_channel_same s)

  declare_queue-open_connections :
      (s : A.State) (e : Option Error)
      → C.open_connections (declare_queue J A pool (s, e)).0 ≡ C.open_connections s
  unfolding declare_queue
  declare_queue-open_connections s none = C.declare_same pool.qcfg pool.queue s
  declare_queue-open_connections s (some e) = refl

  open_channel-open_connections :
      (s : A.State) → C.open_connections (open_channel J A pool (s, none)).0 ≡ C.open_connections s
  unfolding open_channel
  open_channel-open_connections s =
      declare_queue-open_connections (A.channel s).0 (A.channel s).1 ∙ C.channel_same s

  -- The server of the configuration is reached.
  abbrev pub Dialled : A.State → Type 0
  Dialled s =
      (cfg : RabbitMqConnection) × (A.connection ≡ ok cfg)
      × ((A.dial (rabbitmq_connection_string cfg) s).1 ≡ none)

  Dialled-open_connections :
      (s : A.State)
      → Dialled s
      → C.open_connections (connect_and_prepare J A pool s).0 ≡ suc (C.open_connections s)
  unfolding connect_and_prepare connect
  Dialled-open_connections s (cfg, configured, reached) =
      let d = A.dial (rabbitmq_connection_string cfg) s in
      rw (configured, reached, connect, connect_and_prepare)
        (open_channel-open_connections d.0 ∙ C.dial_ok (rabbitmq_connection_string cfg) s reached)

module _ (J : Codec) (A : Amqp J.Table) (S : Services) (C : ConnectionLaws A)
    (pool : RabbitMqMessagePool J.Table) where
  write_message-open_connections :
      (q msg : String) (s : World J A S)
      → C.open_connections (write_message J A S pool q msg s).0.amqp ≡ C.open_connections s.amqp
  unfolding write_message
  write_message-open_connections q msg s =
      let same = C.publish_same pool.wcfg q msg s.amqp in
      elim (Option-cases (A.publish pool.wcfg q msg s.amqp).1) [
        | inr (e, h) ↦ rw (h, write_message) same
        | inl h ↦ rw (h, write_message) same
      ]

  write-open_connections :
      (q : String) (msgs : List String) (s : World J A S)
      → C.open_connections (write J A S pool q msgs s).0.amqp ≡ C.open_connections s.amqp
  unfolding write
  write-open_connections q [] s = refl
  write-open_connections q (msg ∷ msgs) s =
      let (s', e) = write_message J A S pool q msg s in
      let same = write_message-open_connections q msg s in
      elim (Option-cases (write_message J A S pool q msg s).1) [
        | inr (e, h) ↦ rw (h, write) same
        | inl h ↦ rw (h, write) (write-open_connections q msgs s' ∙ same)
      ]

  read-open_connections :
      (q : String) (es : List ReadEvent) (s : World J A S)
      → C.open_connections (read J A S pool q es s).0 ≡ C.open_connections s.amqp
  unfolding read
  read-open_connections q es s =
      let same = C.consume_same pool.rcfg q s.amqp in
      elim (Option-cases (A.consume pool.rcfg q s.amqp).1) [
        | inr (e, h) ↦ rw (h, read) same
        | inl h ↦ rw (h, read) same
      ]

  -- A connection that was opened by a connectAndPrepare that failed.
  abbrev pub leaked : Result String → ℕ
  leaked (ok q) = 0
  leaked (err e) = 1

  -- If the server that the configuration names is reached, qwrite leaves as many connections open
  -- as there were, whichever call of the write fails, but for one more if connectAndPrepare returns
  -- an error.
  pub qwrite-open_connections :
      (msgs : List String) (s : World J A S)
      → Dialled J A C pool s.amqp
      → C.open_connections (qwrite J A S pool msgs s).0.amqp
        ≡ C.open_connections s.amqp + leaked (connect_and_prepare J A pool s.amqp).1
  unfolding qwrite write_prepared closing
  qwrite-open_connections msgs s dialled =
      let opened = Dialled-open_connections J A C pool s.amqp dialled in
      let amqp = (connect_and_prepare J A pool s.amqp).0 in
      let s' : World J A S = record s { amqp = amqp } in
      elim (Result-cases (connect_and_prepare J A pool s.amqp).1) [
        | inl (e, h) ↦ rw (h, qwrite, write_prepared) ground (arith, opened)
        | inr (q, h) ↦
            let same = write-open_connections q msgs s' in
            let one = close-open_connections J A C pool (write J A S pool q msgs s').0.amqp in
            rw (h, qwrite, write_prepared) ground (arith, opened, same, one)
      ]

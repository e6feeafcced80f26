-- ===== src/Server/PoolBrokers.antt =====
-- internal/server/pool_brokers_api.go: the handlers of /api/brokers/pool.
-- A handler returns every response that it hands to `c.JSON`, and adds the tasks that it schedules.
pub mod Caches
pub mod Created
pub mod Deleted
use mock_server.Prelude.{
  ◌≡◌, ◌⊎◌, inl, inr, refl, String, List, [], ◌∷◌, ◌++◌, Option, none, some, ◌==◌, if◌then◌else◌,
  map, All,
}
use mock_server.Errors.{Error, no_such_pool, duplicate_key, panicked, Result, ok, err}
use mock_server.Database.Documents.{MessagePool}
use mock_server.Database.Driver.{Collection, Cache}
use mock_server.Database.Records
use mock_server.Brokers.Registry.{
  Codec, Clients, Pool, kafka, rabbitmq, get_json_config, new_kafka_message_pool,
  new_rabbitmq_message_pool,
}
use mock_server.Brokers.Registry.Stored
use mock_server.Brokers.Registry.Stored.{Registry}
use mock_server.Server.Http.{
  PoolView, BrokerTask, text, error_text, error_of, messages, pools, json, Response, reply,
  status_ok, status_no_content, status_bad_request, status_not_found, status_conflict,
  status_internal_server_error,
}

pub data Scheduled (J : Codec) : Type 0 where
  read_task : Pool J → Scheduled J
  write_task : Pool J → List String → Scheduled J

kafka_view : MessagePool → PoolView
kafka_view p = record {
  pool_name = p.name;
  queue_name = "";
  topic_name = p.queue;
  broker = "kafka";
}

rabbitmq_view : MessagePool → PoolView
rabbitmq_view p = record {
  pool_name = p.name;
  queue_name = p.queue;
  topic_name = "";
  broker = "rabbitmq";
}

-- The loop over the pools: a pool of another broker is left out, and answered for.
unfoldable pub pool_views : List MessagePool → List PoolView × List Response
unfolding kafka_view rabbitmq_view
pool_views [] = ([], [])
pool_views (p ∷ ps) =
    let (views, replies) = pool_views ps in
    if p.broker == "rabbitmq"
    then (rabbitmq_view p ∷ views, replies)
    else if p.broker == "kafka"
    then (kafka_view p ∷ views, replies)
    else (
      views,
      reply status_internal_server_error (error_text "Database inconsistency found") ∷ replies,
    )

-- The `switch err` blocks.

pools_replies : Result (List MessagePool) → List Response
unfolding pool_views
pools_replies (err e) = reply status_internal_server_error (error_of e) ∷ []
pools_replies (ok ps) =
    let (views, replies) = pool_views ps in replies ++ reply status_ok (pools views) ∷ []

pool_error_reply : Error → Response
pool_error_reply no_such_pool = reply status_not_found (error_text "No such pool")
pool_error_reply e = reply status_internal_server_error (error_of e)

specify_pool : Response
specify_pool = reply status_bad_request (error_text "specify pool param")

messages_reply : Result (List String) → Response
messages_reply (ok ms) = reply status_ok (messages ms)
messages_reply (err e) = reply status_internal_server_error (error_of e)

created_reply : Option Error → Response
created_reply none = reply status_ok (text "Message pool successfully created!")
created_reply (some duplicate_key) =
    reply status_conflict (error_text "The same message pool already exists")
created_reply (some e) = reply status_internal_server_error (error_of e)

removed_reply : Option Error → Response
removed_reply none = reply status_no_content (text "Message pool successfully removed")
removed_reply (some e) = reply status_internal_server_error (error_of e)

-- What POST checks of a pool, and the pool that it makes.
requested_pool : (J : Codec) → PoolView → Response ⊎ Pool J
unfolding new_kafka_message_pool new_rabbitmq_message_pool
requested_pool J p =
    if p.broker == "rabbitmq"
    then (if p.queue_name == ""
        then inl
            (reply status_bad_request (error_text "queue_name field required for rabbitmq pool"))
        else inr (rabbitmq (new_rabbitmq_message_pool J p.pool_name p.queue_name)))
    else if p.broker == "kafka"
    then (if p.topic_name == ""
        then inl (reply status_bad_request (error_text "topic_name field required for kafka pool"))
        else inr (kafka (new_kafka_message_pool p.pool_name p.topic_name)))
    else inl (reply status_bad_request (error_text "Such pool is unsupported"))

module _ (J : Codec) (B : Clients) (C : Collection) (K : Cache MessagePool) (T : Collection) where
  pub record Brokers : Type 0 where
    pub registry : Registry J B C K
    pub task_messages : T.State
    pub scheduled : List (Scheduled J)

  -- GET /pool
  unfoldable pub get_pools : Brokers → Brokers × List Response
  unfolding pools_replies
  get_pools s = (s, pools_replies (Records.list_message_pools C K s.registry.pools))

  config_reply : Result (Pool J) → Response
  config_reply (err e) = pool_error_reply e
  config_reply (ok pool) = elim (get_json_config J pool) [
    | ok config ↦ reply status_ok (json config)
    | err e ↦ reply status_internal_server_error (error_of panicked)
  ]

  -- GET /pool/config?pool=
  unfoldable pub get_config : String → Brokers → Brokers × List Response
  unfolding config_reply pool_error_reply specify_pool
  get_config name s =
      if name == ""
      then (s, specify_pool ∷ [])
      else (let (registry, r) = Stored.get_message_pool J B C K name s.registry in
          (record s { registry = registry }, config_reply r ∷ []))

  listed_messages :
      (MessagePool → T.State → Result (List String)) → T.State → Result MessagePool → Response
  unfolding messages_reply pool_error_reply
  listed_messages list ms (err e) = pool_error_reply e
  listed_messages list ms (ok pool) = messages_reply (list pool ms)

  list_messages :
      (MessagePool → T.State → Result (List String)) → String → Brokers → Brokers × List Response
  unfolding listed_messages specify_pool
  list_messages list name s =
      if name == ""
      then (s, specify_pool ∷ [])
      else (let (ps, r) = Records.get_message_pool C K name s.registry.pools in
          let registry : Registry J B C K = record s.registry { pools = ps } in
          (record s { registry = registry }, listed_messages list s.task_messages r ∷ []))

  -- GET /pool/read?pool=
  unfoldable pub get_read : String → Brokers → Brokers × List Response
  unfolding list_messages
  get_read = list_messages (Records.get_message_pool_read_messages T)

  -- GET /pool/write?pool=
  unfoldable pub get_write : String → Brokers → Brokers × List Response
  unfolding list_messages
  get_write = list_messages (Records.get_message_pool_write_messages T)

  schedule :
      (Pool J → Scheduled J)
      → Response
      → Registry J B C K × Result (Pool J)
      → Brokers
      → Brokers × List Response
  unfolding pool_error_reply
  schedule task done (registry, err e) s =
      (record s { registry = registry }, pool_error_reply e ∷ [])
  schedule task done (registry, ok pool) s =
      (record s { registry = registry; scheduled = s.scheduled ++ task pool ∷ [] }, done ∷ [])

  -- POST /pool/read?pool=
  unfoldable pub post_read : String → Brokers → Brokers × List Response
  unfolding schedule specify_pool
  post_read name s =
      if name == ""
      then (s, specify_pool ∷ [])
      else schedule read_task (reply status_no_content (text "Read tasks successfully scheduled"))
          (Stored.get_message_pool J B C K name s.registry) s

  -- POST /pool/write
  unfoldable pub post_write : Result BrokerTask → Brokers → Brokers × List Response
  unfolding schedule
  post_write (err e) s = (s, reply status_bad_request (error_of e) ∷ [])
  post_write (ok task) s =
      schedule (λ pool. write_task pool task.messages)
        (reply status_no_content (text "Write tasks successfully scheduled"))
        (Stored.get_message_pool J B C K task.pool_name s.registry) s

  create_pool : Brokers → Response ⊎ Pool J → Brokers × List Response
  unfolding created_reply
  create_pool s (inl refusal) = (s, refusal ∷ [])
  create_pool s (inr pool) =
      let (registry, e) = Stored.add_message_pool J B C K pool s.registry in
      (record s { registry = registry }, created_reply e ∷ [])

  -- POST /pool
  unfoldable pub post_pool : Result PoolView → Brokers → Brokers × List Response
  unfolding create_pool requested_pool
  post_pool (err e) s = (s, reply status_bad_request (error_of e) ∷ [])
  post_pool (ok p) s = create_pool s (requested_pool J p)

  -- DELETE /pool?pool=
  unfoldable pub delete_pool : String → Brokers → Brokers × List Response
  unfolding removed_reply specify_pool
  delete_pool name s =
      if name == ""
      then (s, specify_pool ∷ [])
      else (let (registry, e) = Stored.remove_message_pool J B C K name s.registry in
          (record s { registry = registry }, removed_reply e ∷ []))

-- Where every stored pool has one of the two brokers, the loop of GET /pool gives each pool once,
-- in order, with its name and broker, and answers nothing itself.
pub pool_views_known :
    (ps : List MessagePool)
    → All (λ p. (p.broker ≡ "kafka") ⊎ (p.broker ≡ "rabbitmq")) ps
    → ((pool_views ps).1 ≡ [])
      × (map (λ v. v.pool_name) (pool_views ps).0 ≡ map (λ p. p.name) ps)
      × (map (λ v. v.broker) (pool_views ps).0 ≡ map (λ p. p.broker) ps)
unfolding pool_views kafka_view rabbitmq_view
pool_views_known [] h = (refl, refl, refl)
pool_views_known (p ∷ ps) (inl e, h) =
    let (a, b, c) = pool_views_known ps h in rw (e, a, b, c) (refl, refl, refl)
pool_views_known (p ∷ ps) (inr e, h) =
    let (a, b, c) = pool_views_known ps h in rw (e, a, b, c) (refl, refl, refl)

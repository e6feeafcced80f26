-- ===== src/Server/PoolBrokers/Created.antt =====
-- internal/server/pool_brokers_api.go: a pool that a client has created, as other requests find it.
use mock_server.Prelude.{
  ◌≡◌, ◌⊎◌, refl, ap, inl, inr, sym, ◌∙◌, subst, List, [], ◌∷◌, ◌++◌, Option, none, ◌==◌, eq_iff,
  if◌then◌else◌, Bool-cases, arith,
}
use mock_server.Errors.{Error, ok}
use mock_server.Database.Documents.{MessagePool}
use mock_server.Database.Driver.{Collection, Cache, CollectionLaws, CacheLaws}
use mock_server.Brokers.Registry.{
  Codec, CodecLaws, Clients, Pool, kafka, rabbitmq, get_name, get_queue, get_broker,
  new_kafka_message_pool, new_rabbitmq_message_pool, create_broker_endpoint,
}
use mock_server.Brokers.Registry.Stored
use mock_server.Brokers.Registry.Stored.{Registry}
use mock_server.Brokers.Registry.Stored.Caches.{IsCoherentRegistry}
use mock_server.Brokers.Registry.Stored.Lookup.{
  create_broker_endpoint_same, get_message_pool-add_message_pool,
}
use mock_server.Server.Http.{
  PoolView, BrokerTask, text, Response, reply, status_ok, status_no_content, status_bad_request,
}
use mock_server.Server.PoolBrokers.{
  Brokers, write_task, schedule, post_write, requested_pool, create_pool, created_reply, post_pool,
}

abbrev pub created : Response
created = reply status_ok (text "Message pool successfully created!")

abbrev pub scheduled_writes : Response
scheduled_writes = reply status_no_content (text "Write tasks successfully scheduled")

-- The pool has the name and the broker of the request, and the queue or the topic.
abbrev pub IsRequested : (J : Codec) → PoolView → Pool J → Type 0
IsRequested J p pool =
    (get_name J pool ≡ p.pool_name)
    × (get_queue J pool ≡ (if p.broker == "rabbitmq" then p.queue_name else p.topic_name))
    × (get_broker J pool ≡ p.broker)

created_reply_ok : (e : Option Error) → (created_reply e).status ≡ status_ok → e ≡ none
unfolding created_reply
created_reply_ok e h = ground arith

requested_pool-IsRequested :
    (J : Codec) (p : PoolView) (pool : Pool J)
    → requested_pool J p ≡ inr pool
    → IsRequested J p pool
unfolding requested_pool get_name get_queue get_broker new_kafka_message_pool
    new_rabbitmq_message_pool
requested_pool-IsRequested J p pool h = elim (Bool-cases (p.broker == "rabbitmq")) [
  | inl rabbit ↦ elim (Bool-cases (p.queue_name == "")) [
    | inl blank ↦ let h' = rw (rabbit, blank) at h in cc
    | inr named ↦
        let made : rabbitmq (new_rabbitmq_message_pool J p.pool_name p.queue_name) ≡ pool = cc in
        subst (IsRequested J p) made (rw rabbit (refl, refl, sym ((eq_iff _ _).0 rabbit)))
  ]
  | inr other ↦ elim (Bool-cases (p.broker == "kafka")) [
    | inl is_kafka ↦ elim (Bool-cases (p.topic_name == "")) [
      | inl blank ↦ let h' = rw (other, is_kafka, blank) at h in cc
      | inr named ↦
          let made : kafka (new_kafka_message_pool p.pool_name p.topic_name) ≡ pool = cc in
          subst (IsRequested J p) made (rw other (refl, refl, sym ((eq_iff _ _).0 is_kafka)))
    ]
    | inr unknown ↦ let h' = rw (other, unknown) at h in cc
  ]
]

requested_pool_refused :
    (J : Codec) (p : PoolView) (refusal : Response)
    → requested_pool J p ≡ inl refusal
    → refusal.status ≡ status_bad_request
unfolding requested_pool
requested_pool_refused J p refusal h = ground arith

module _ {J : Codec} {B : Clients} {C : Collection} {K : Cache MessagePool} {T : Collection}
    (I : CodecLaws J) (L : CollectionLaws C "name") (M : CacheLaws K) where
  -- A task for the pool is scheduled after those that were, and 204 is answered.
  abbrev pub SchedulesWrite :
      PoolView → BrokerTask → Brokers J B C K T → Brokers J B C K T × List Response → Type 0
  SchedulesWrite p task s r =
      (pool : Pool J) × IsRequested J p pool
      × (r.0.scheduled ≡ s.scheduled ++ write_task pool task.messages ∷ [])
      × (r.1 ≡ scheduled_writes ∷ [])

  post_write-create_pool :
      (p : PoolView) (task : BrokerTask) (s : Brokers J B C K T) (q : Response ⊎ Pool J)
      → requested_pool J p ≡ q
      → IsCoherentRegistry L M s.registry
      → (create_pool J B C K T s q).1 ≡ created ∷ []
      → L.Up (create_pool J B C K T s q).0.registry.pools.coll
      → task.pool_name ≡ p.pool_name
      → SchedulesWrite p task s (post_write J B C K T (ok task) (create_pool J B C K T s q).0)
  unfolding create_pool post_write schedule
  post_write-create_pool p task s (inl refusal) asked c done up named =
      let same : refusal ≡ created = cc in
      let clash : status_ok ≡ status_bad_request =
        sym (ap (λ r. r.status) same) ∙ requested_pool_refused J p refusal asked in
      absurd (omega arith)
  post_write-create_pool p task s (inr pool) asked c done up named =
      let (name, queue, broker) = requested_pool-IsRequested J p pool asked in
      let (name', queue', broker') = create_broker_endpoint_same J B pool s.registry.brokers in
      let made = (create_broker_endpoint J B pool s.registry.brokers).0 in
      let added = (Stored.add_message_pool J B C K pool s.registry).1 in
      let answer : created_reply added ≡ created = cc in
      let nil = created_reply_ok added (ap (λ r. r.status) answer) in
      let found =
        subst
          (λ n.
            (Stored.get_message_pool J B C K n
              (Stored.add_message_pool J B C K pool s.registry).0).1
            ≡ ok made)
          (name ∙ sym named) (get_message_pool-add_message_pool I L M pool s.registry c nil up) in
      (
        made,
        (name' ∙ name, queue' ∙ queue, broker' ∙ broker),
        rw (found, schedule) refl,
        rw (found, schedule) refl,
      )

  -- If the cache of the pools agrees with the collection and the database answers, then after POST
  -- /pool has answered 200, POST /pool/write under the same name answers 204 and schedules, after
  -- the tasks that were scheduled before, one write task with the messages, for a pool with the
  -- requested name, broker, and queue or topic.
  pub post_write-post_pool :
      (p : PoolView) (task : BrokerTask) (s : Brokers J B C K T)
      → IsCoherentRegistry L M s.registry
      → (post_pool J B C K T (ok p) s).1 ≡ created ∷ []
      → L.Up (post_pool J B C K T (ok p) s).0.registry.pools.coll
      → task.pool_name ≡ p.pool_name
      → SchedulesWrite p task s (post_write J B C K T (ok task) (post_pool J B C K T (ok p) s).0)
  unfolding post_pool
  post_write-post_pool p task s = post_write-create_pool p task s (requested_pool J p) refl

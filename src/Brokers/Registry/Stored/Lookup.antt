-- ===== src/Brokers/Registry/Stored/Lookup.antt =====
-- internal/brokers/registry.go: looking up a pool that was added or removed.
use mock_server.Prelude.{
  ◌≡◌, refl, ap, sym, inl, inr, ◌∙◌, subst, String, none, some, eq_refl, Option-cases,
}
use mock_server.Errors.{no_such_pool, ok, err, Result-cases}
use mock_server.Database.Documents.{MessagePool}
use mock_server.Database.Driver.{Collection, Cache, CollectionLaws, CacheLaws}
use mock_server.Database.Store.Coherence.{stored, add-Adds, get-Gets, remove-Removes}
use mock_server.Database.Records
use mock_server.Database.Records.{pool_schema}
use mock_server.Brokers.Registry.{
  Codec, CodecLaws, Clients, Pool, kafka, rabbitmq, get_name, get_queue, get_broker,
  get_json_config, create_broker_endpoint, remove_broker_endpoint, create_kafka_endpoint,
  create_topic, kafka_connection_string,
}
use mock_server.Brokers.Registry.Stored.{
  Registry, record_of, stored_pool, created_pool, add_message_pool, get_message_pool, pool_of,
  remove_message_pool, removed_pool, removed_endpoint, create_from_database-record_of,
}
use mock_server.Brokers.Registry.Stored.Caches.{
  pool_laws, IsCoherentRegistry, add_message_pool-IsCoherentRegistry,
  remove_message_pool-IsCoherentRegistry,
}

-- CreateBrokerEndpoint changes neither the name of a pool nor its queue nor its broker.
pub create_broker_endpoint_same :
    (J : Codec) (B : Clients) (p : Pool J) (b : B.State)
    → let p' = (create_broker_endpoint J B p b).0 in
      (get_name J p' ≡ get_name J p)
      × (get_queue J p' ≡ get_queue J p)
      × (get_broker J p' ≡ get_broker J p)
unfolding create_broker_endpoint create_kafka_endpoint get_name get_queue get_broker
create_broker_endpoint_same J B (rabbitmq mp) b = (refl, refl, refl)
create_broker_endpoint_same J B (kafka mp) b = elim (Result-cases B.kafka_connection) [
  | inl (e, h) ↦ rw (h, create_kafka_endpoint) (refl, refl, refl)
  | inr (cfg, h) ↦ elim (Option-cases (B.new_admin_client (kafka_connection_string cfg) b)) [
    | inl k ↦ rw (h, k, create_kafka_endpoint, create_topic) (refl, refl, refl)
    | inr (e, k) ↦ rw (h, k, create_kafka_endpoint, create_topic) (refl, refl, refl)
  ]
]

module _ {J : Codec} {B : Clients} {C : Collection} {K : Cache MessagePool} (I : CodecLaws J)
    (L : CollectionLaws C "name") (M : CacheLaws K) where
  -- An addition that returns nil has stored the record of the pool whose endpoint was created.
  stored_of_added :
      (p : Pool J) (s : Registry J B C K)
      → (add_message_pool J B C K p s).1 ≡ none
      → let p' = (create_broker_endpoint J B p s.brokers).0 in
        (config : String) × (get_json_config J p' ≡ ok config)
        × (stored pool_schema L M (add_message_pool J B C K p s).0.pools (get_name J p')
            ≡ some (record_of J p' config))
  unfolding add_message_pool created_pool stored_pool Records.add_message_pool
  stored_of_added p s done =
      let (p', b, e) = create_broker_endpoint J B p s.brokers in
      elim (Option-cases (create_broker_endpoint J B p s.brokers).2) [
        | inr (e, bad) ↦ let done' = rw (bad, created_pool) at done in cc
        | inl made ↦ elim (Result-cases (get_json_config J p')) [
          | inl (e, bad) ↦ let done' = rw (made, bad, created_pool, stored_pool) at done in cc
          | inr (config, h) ↦
              let nil = rw (made, h, created_pool, stored_pool) at done in
              elim (add-Adds pool_schema L M pool_laws (record_of J p' config) s.pools) [
                | inl (_, (_, after)) ↦ (
                  config,
                  h,
                  rw (made, h, created_pool, stored_pool)
                      (after (get_name J p') ∙ rw (eq_refl (get_name J p')) refl),
                )
                | inr (bad, _) ↦ absurd (bad nil)
              ]
        ]
      ]

  -- After an addition that returns nil, while the database answers, a pool is looked up under its
  -- name as it was when its endpoint had been created.
  pub get_message_pool-add_message_pool :
      (p : Pool J) (s : Registry J B C K)
      → IsCoherentRegistry L M s
      → (add_message_pool J B C K p s).1 ≡ none
      → L.Up (add_message_pool J B C K p s).0.pools.coll
      → (get_message_pool J B C K (get_name J p) (add_message_pool J B C K p s).0).1
        ≡ ok (create_broker_endpoint J B p s.brokers).0
  unfolding get_message_pool Records.get_message_pool
  get_message_pool-add_message_pool p s c done up =
      let s' = (add_message_pool J B C K p s).0 in
      let p' = (create_broker_endpoint J B p s.brokers).0 in
      let (config, h, there) = stored_of_added p s done in
      let (name, _, _) = create_broker_endpoint_same J B p s.brokers in
      let there' =
        subst (λ n. stored pool_schema L M s'.pools n ≡ some (record_of J p' config)) name there in
      elim (get-Gets pool_schema L M (get_name J p) s'.pools
        (add_message_pool-IsCoherentRegistry L M p s c)) [
          | inl (v, got, found) ↦
              let same : v ≡ record_of J p' config = cc in
              ap (pool_of J B C K) (got ∙ ap ok same) ∙ create_from_database-record_of I p' config h
          | inr (inl (got, free)) ↦ cc
          | inr (inr (e, got, down)) ↦ absurd (down up)
        ]

module _ {J : Codec} {B : Clients} {C : Collection} {K : Cache MessagePool}
    (L : CollectionLaws C "name") (M : CacheLaws K) where
  -- A removal that returns nil has looked the pool up, and has left its name free.
  removed_free :
      (name : String) (s : Registry J B C K)
      → (remove_message_pool J B C K name s).1 ≡ none
      → stored pool_schema L M (remove_message_pool J B C K name s).0.pools name ≡ none
  unfolding remove_message_pool removed_pool removed_endpoint Records.remove_message_pool
  removed_free name s done =
      let (s', r) = get_message_pool J B C K name s in
      elim (Result-cases (get_message_pool J B C K name s).1) [
        | inl (e, bad) ↦ let done' = rw (bad, removed_pool) at done in cc
        | inr (p, there) ↦ elim (Option-cases (remove_broker_endpoint J B p s'.brokers).1) [
          | inr (e, bad) ↦ let done' = rw (there, bad, removed_pool, removed_endpoint) at done in cc
          | inl gone ↦
              let nil = rw (there, gone, removed_pool, removed_endpoint) at done in
              elim (remove-Removes pool_schema L M name s'.pools) [
                | inl (_, after) ↦
                    rw (there, gone, removed_pool, removed_endpoint)
                      (after name ∙ rw (eq_refl name) refl)
                | inr (bad, _) ↦ absurd (bad nil)
              ]
        ]
      ]

  -- After a removal that returns nil, while the database answers, the name is not found.
  pub get_message_pool-remove_message_pool :
      (name : String) (s : Registry J B C K)
      → IsCoherentRegistry L M s
      → (remove_message_pool J B C K name s).1 ≡ none
      → L.Up (remove_message_pool J B C K name s).0.pools.coll
      → (get_message_pool J B C K name (remove_message_pool J B C K name s).0).1 ≡ err no_such_pool
  unfolding get_message_pool Records.get_message_pool
  get_message_pool-remove_message_pool name s c done up =
      let s' = (remove_message_pool J B C K name s).0 in
      let free = removed_free name s done in
      elim (get-Gets pool_schema L M name s'.pools (
        remove_message_pool-IsCoherentRegistry L M name s (λ e h. let bad = sym done ∙ h in cc)
          c)) [
            | inl (v, got, found) ↦ cc
            | inr (inl (got, _)) ↦ ap (pool_of J B C K) got
            | inr (inr (e, got, down)) ↦ absurd (down up)
          ]

-- ===== src/Server/PoolBrokers/Caches.antt =====
-- internal/server/pool_brokers_api.go: the handlers keep the cache of the pools true to the collection.
use mock_server.Prelude.{◌≢◌, ◌⊎◌, refl, inl, inr, String, ◌==◌, List, Bool-cases, All}
use mock_server.Errors.{Result, ok, err}
use mock_server.Database.Documents.{MessagePool}
use mock_server.Database.Driver.{Collection, Cache, CollectionLaws, CacheLaws}
use mock_server.Database.Store.Coherence.{get-IsCoherent}
use mock_server.Database.Records
use mock_server.Database.Records.{pool_schema}
use mock_server.Brokers.Registry.{Codec, Clients, Pool}
use mock_server.Brokers.Registry.Stored
use mock_server.Brokers.Registry.Stored.{Registry}
use mock_server.Brokers.Registry.Stored.Caches.{
  IsCoherentRegistry, get_message_pool-IsCoherentRegistry, add_message_pool-IsCoherentRegistry,
  remove_message_pool-IsCoherentRegistry,
}
use mock_server.Server.Http.{PoolView, BrokerTask, Response, status_internal_server_error}
use mock_server.Server.PoolBrokers.{
  Brokers, Scheduled, get_config, get_read, get_write, list_messages, schedule, post_read,
  post_write, create_pool, requested_pool, post_pool, delete_pool,
}

module _ {J : Codec} {B : Clients} {C : Collection} {K : Cache MessagePool} {T : Collection}
    (L : CollectionLaws C "name") (M : CacheLaws K) where
  abbrev IsKept : Brokers J B C K T → Type 0
  IsKept s = IsCoherentRegistry L M s.registry

  pub get_config-IsCoherentRegistry :
      (name : String) (s : Brokers J B C K T) → IsKept s → IsKept (get_config J B C K T name s).0
  unfolding get_config
  get_config-IsCoherentRegistry name s c = elim (Bool-cases (name == "")) [
    | inl e ↦ rw e c
    | inr e ↦ rw e (get_message_pool-IsCoherentRegistry L M name s.registry c)
  ]

  list_messages-IsCoherentRegistry :
      (list : MessagePool → T.State → Result (List String)) (name : String) (s : Brokers J B C K T)
      → IsKept s
      → IsKept (list_messages J B C K T list name s).0
  unfolding list_messages Records.get_message_pool
  list_messages-IsCoherentRegistry list name s c = elim (Bool-cases (name == "")) [
    | inl e ↦ rw e c
    | inr e ↦ rw e (get-IsCoherent pool_schema L M name s.registry.pools c)
  ]

  pub get_read-IsCoherentRegistry :
      (name : String) (s : Brokers J B C K T) → IsKept s → IsKept (get_read J B C K T name s).0
  unfolding get_read
  get_read-IsCoherentRegistry = list_messages-IsCoherentRegistry _

  pub get_write-IsCoherentRegistry :
      (name : String) (s : Brokers J B C K T) → IsKept s → IsKept (get_write J B C K T name s).0
  unfolding get_write
  get_write-IsCoherentRegistry = list_messages-IsCoherentRegistry _

  schedule-IsCoherentRegistry :
      (task : Pool J → Scheduled J) (done : Response) (registry : Registry J B C K)
      (r : Result (Pool J)) (s : Brokers J B C K T)
      → IsCoherentRegistry L M registry
      → IsKept (schedule J B C K T task done (registry, r) s).0
  unfolding schedule
  schedule-IsCoherentRegistry task done registry (err e) s c = c
  schedule-IsCoherentRegistry task done registry (ok p) s c = c

  pub post_read-IsCoherentRegistry :
      (name : String) (s : Brokers J B C K T) → IsKept s → IsKept (post_read J B C K T name s).0
  unfolding post_read
  post_read-IsCoherentRegistry name s c = elim (Bool-cases (name == "")) [
    | inl e ↦ rw e c
    | inr e ↦
        let found = Stored.get_message_pool J B C K name s.registry in
        rw e (
          schedule-IsCoherentRegistry _ _ found.0 found.1 s
            (get_message_pool-IsCoherentRegistry L M name s.registry c))
  ]

  pub post_write-IsCoherentRegistry :
      (r : Result BrokerTask) (s : Brokers J B C K T)
      → IsKept s
      → IsKept (post_write J B C K T r s).0
  unfolding post_write
  post_write-IsCoherentRegistry (err e) s c = c
  post_write-IsCoherentRegistry (ok task) s c =
      let found = Stored.get_message_pool J B C K task.pool_name s.registry in
      schedule-IsCoherentRegistry _ _ found.0 found.1 s
        (get_message_pool-IsCoherentRegistry L M task.pool_name s.registry c)

  create_pool-IsCoherentRegistry :
      (s : Brokers J B C K T) (p : Response ⊎ Pool J)
      → IsKept s
      → IsKept (create_pool J B C K T s p).0
  unfolding create_pool
  create_pool-IsCoherentRegistry s (inl refusal) c = c
  create_pool-IsCoherentRegistry s (inr p) c =
      add_message_pool-IsCoherentRegistry L M p s.registry c

  pub post_pool-IsCoherentRegistry :
      (r : Result PoolView) (s : Brokers J B C K T) → IsKept s → IsKept (post_pool J B C K T r s).0
  unfolding post_pool
  post_pool-IsCoherentRegistry (err e) s c = c
  post_pool-IsCoherentRegistry (ok p) s c = create_pool-IsCoherentRegistry s (requested_pool J p) c

  pub delete_pool-IsCoherentRegistry :
      (name : String) (s : Brokers J B C K T)
      → All (λ r. r.status ≢ status_internal_server_error) (delete_pool J B C K T name s).1
      → IsKept s
      → IsKept (delete_pool J B C K T name s).0
  unfolding delete_pool
  delete_pool-IsCoherentRegistry name s fine c = elim (Bool-cases (name == "")) [
    | inl e ↦ rw e c
    | inr e ↦ rw e (
        remove_message_pool-IsCoherentRegistry L M name s.registry
          (λ d h. let bad = rw (e, h) at fine in bad.0 refl) c)
  ]

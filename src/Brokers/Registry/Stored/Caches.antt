-- ===== src/Brokers/Registry/Stored/Caches.antt =====
-- internal/brokers/registry.go: the cache of the stored pools stays true to the collection.
use mock_server.Prelude.{◌≢◌, refl, inl, inr, String, Option, none, some}
use mock_server.Errors.{DriverError, Error, driver, Result, ok, err, Result-cases}
use mock_server.Database.Documents.{
  MessagePool, decode_message_pool-encode_message_pool, encode_message_pool, field,
}
use mock_server.Database.Driver.{Collection, Cache, CollectionLaws, CacheLaws}
use mock_server.Database.Store.Coherence.{
  SchemaLaws, IsCoherent, add-IsCoherent, get-IsCoherent, remove-IsCoherent,
}
use mock_server.Database.Records
use mock_server.Database.Records.{pool_schema}
use mock_server.Brokers.Registry.{
  Codec, Clients, Pool, create_broker_endpoint, remove_broker_endpoint, get_json_config,
}
use mock_server.Brokers.Registry.Stored.{
  Registry, record_of, stored_pool, created_pool, add_message_pool, get_message_pool,
  removed_endpoint, removed_pool, remove_message_pool,
}

pub pool_laws : SchemaLaws pool_schema
unfolding encode_message_pool field
pool_laws = record {
  decode-encode = decode_message_pool-encode_message_pool;
  field-encode = λ p. refl;
}

module _ {J : Codec} {B : Clients} {C : Collection} {K : Cache MessagePool}
    (L : CollectionLaws C "name") (M : CacheLaws K) where
  abbrev pub IsCoherentRegistry : Registry J B C K → Type 0
  IsCoherentRegistry s = IsCoherent pool_schema L M s.pools

  pub get_message_pool-IsCoherentRegistry :
      (name : String) (s : Registry J B C K)
      → IsCoherentRegistry s
      → IsCoherentRegistry (get_message_pool J B C K name s).0
  unfolding get_message_pool Records.get_message_pool
  get_message_pool-IsCoherentRegistry name s c = get-IsCoherent pool_schema L M name s.pools c

  created_pool-IsCoherentRegistry :
      (s : Registry J B C K) (p : Pool J) (brokers : B.State) (e : Option Error)
      → IsCoherentRegistry s
      → IsCoherentRegistry (created_pool J B C K s (p, brokers, e)).0
  unfolding created_pool stored_pool Records.add_message_pool
  created_pool-IsCoherentRegistry s p brokers (some e) c = c
  created_pool-IsCoherentRegistry s p brokers none c = elim (Result-cases (get_json_config J p)) [
    | inl (e, h) ↦ rw h c
    | inr (config, h) ↦
        rw h (add-IsCoherent pool_schema L M pool_laws (record_of J p config) s.pools c)
  ]

  pub add_message_pool-IsCoherentRegistry :
      (p : Pool J) (s : Registry J B C K)
      → IsCoherentRegistry s
      → IsCoherentRegistry (add_message_pool J B C K p s).0
  unfolding add_message_pool
  add_message_pool-IsCoherentRegistry p s c =
      let (p', brokers, e) = create_broker_endpoint J B p s.brokers in
      created_pool-IsCoherentRegistry s p' brokers e c

  removed_endpoint-IsCoherentRegistry :
      (name : String) (s : Registry J B C K) (brokers : B.State) (e : Option Error)
      → ((d : DriverError) → (removed_endpoint J B C K name s (brokers, e)).1 ≢ some (driver d))
      → IsCoherentRegistry s
      → IsCoherentRegistry (removed_endpoint J B C K name s (brokers, e)).0
  unfolding removed_endpoint Records.remove_message_pool
  removed_endpoint-IsCoherentRegistry name s brokers (some e) known c = c
  removed_endpoint-IsCoherentRegistry name s brokers none known c =
      remove-IsCoherent pool_schema L M name s.pools known c

  removed_pool-IsCoherentRegistry :
      (name : String) (s : Registry J B C K) (r : Result (Pool J))
      → ((d : DriverError) → (removed_pool J B C K name (s, r)).1 ≢ some (driver d))
      → IsCoherentRegistry s
      → IsCoherentRegistry (removed_pool J B C K name (s, r)).0
  unfolding removed_pool
  removed_pool-IsCoherentRegistry name s (err e) known c = c
  removed_pool-IsCoherentRegistry name s (ok p) known c =
      let (brokers, e) = remove_broker_endpoint J B p s.brokers in
      removed_endpoint-IsCoherentRegistry name s brokers e known c

  -- A removal that returns no error of the driver keeps the cache true to the collection.
  pub remove_message_pool-IsCoherentRegistry :
      (name : String) (s : Registry J B C K)
      → ((d : DriverError) → (remove_message_pool J B C K name s).1 ≢ some (driver d))
      → IsCoherentRegistry s
      → IsCoherentRegistry (remove_message_pool J B C K name s).0
  unfolding remove_message_pool
  remove_message_pool-IsCoherentRegistry name s known c =
      removed_pool-IsCoherentRegistry name (get_message_pool J B C K name s).0
        (get_message_pool J B C K name s).1 known (get_message_pool-IsCoherentRegistry name s c)

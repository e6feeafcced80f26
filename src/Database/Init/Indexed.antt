-- ===== src/Database/Init/Indexed.antt =====
-- internal/database: the unique indexes on which the behaviour of the collections rests.
use mock_server.Prelude.{◌≡◌, refl, ap, ◌∙◌, String, Bool, true, none, inl, inr, Option-cases}
use mock_server.Database.Routes.{route_schema}
use mock_server.Database.Records.{esb_schema, pool_schema}
use mock_server.Database.Init.{
  Mongod, Action, ◌>>◌, DatabaseConfig, MongoStorage, routes_collection, esb_records_collection,
  message_pools_collection, then_on, create_routes, create_task_messages, create_esb_records,
  create_message_pools, init,
}

-- The documented behaviour of CreateOne.
pub record IndexLaws (D : Mongod) : Type 0 where
  -- whether a collection has a unique index on a key
  pub unique : D.State → String → String → Bool
  pub create_ok :
      (coll key : String) (s : D.State)
      → (D.create_one coll key true s).1 ≡ none
      → unique (D.create_one coll key true s).0 coll key ≡ true
  pub create_keeps :
      (coll key c k : String) (s : D.State)
      → unique s c k ≡ true
      → unique (D.create_one coll key true s).0 c k ≡ true

-- A sequence that succeeds is its two actions, which succeed.
>>-none :
    (D : Mongod) (first next : Action D) (p : D.State × MongoStorage)
    → ((◌>>◌ D first next) p).2 ≡ none
    → ((first p).2 ≡ none) × ((◌>>◌ D first next) p ≡ next ((first p).0, (first p).1))
>>-none D first next p done = elim (Option-cases (first p).2) [
  | inl h ↦ (h, rw h refl)
  | inr (e, h) ↦ let bad = rw h at done in cc
]

module _ {D : Mongod} (L : IndexLaws D) where
  -- If the initialisation of the storage returns nil, then the collections of the routes, of the
  -- ESB records and of the message pools each have a unique index on the key of their records.
  pub init-unique :
      (cfg : DatabaseConfig) (s : D.State) (db : MongoStorage)
      → (init D cfg (s, db)).2 ≡ none
      → (L.unique (init D cfg (s, db)).0 routes_collection route_schema.key ≡ true)
        × (L.unique (init D cfg (s, db)).0 esb_records_collection esb_schema.key ≡ true)
        × (L.unique (init D cfg (s, db)).0 message_pools_collection pool_schema.key ≡ true)
  unfolding init create_routes create_task_messages create_esb_records create_message_pools then_on
  init-unique cfg s db done =
      let db' : MongoStorage = record db { client = true } in
      let first : Action D = create_routes D cfg in
      let second : Action D = ◌>>◌ D first (create_task_messages D cfg) in
      let third : Action D = ◌>>◌ D second (create_esb_records D cfg) in
      let (done3, eq3) = >>-none D third (create_message_pools D cfg) (s, db') done in
      let (done2, eq2) = >>-none D second (create_esb_records D cfg) (s, db') done3 in
      let (done1, eq1) = >>-none D first (create_task_messages D cfg) (s, db') done2 in
      let esb_done = rw eq2 at done3 in
      let pools_done = rw eq3 at done in
      let routes =
        ap (λ p. L.unique p.0 routes_collection route_schema.key) eq1
        ∙ L.create_ok routes_collection route_schema.key s done1 in
      let esb =
        ap (λ p. L.unique p.0 esb_records_collection esb_schema.key) eq2
        ∙ L.create_ok esb_records_collection esb_schema.key (second (s, db')).0 esb_done in
      let routes' =
        ap (λ p. L.unique p.0 routes_collection route_schema.key) eq2
        ∙ L.create_keeps esb_records_collection esb_schema.key _ _ (second (s, db')).0 routes in
      (
        ap (λ p. L.unique p.0 routes_collection route_schema.key) eq3
            ∙ L.create_keeps message_pools_collection pool_schema.key _ _ (third (s, db')).0
                routes',
        ap (λ p. L.unique p.0 esb_records_collection esb_schema.key) eq3
            ∙ L.create_keeps message_pools_collection pool_schema.key _ _ (third (s, db')).0 esb,
        ap (λ p. L.unique p.0 message_pools_collection pool_schema.key) eq3
            ∙ L.create_ok message_pools_collection pool_schema.key (third (s, db')).0 pools_done,
      )

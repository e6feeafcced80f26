-- ===== src/Database/Init/Running.antt =====
-- internal/database/database.go: the server in memory, from InitDB to Disconnect.
use mock_server.Prelude.{
  ◌≡◌, ◌≢◌, refl, ap, ◌∙◌, String, Bool, true, if◌then◌else◌, Option, none, some, inl, inr,
  Option-cases, Bool-cases,
}
use mock_server.Errors.{Error, panicked, ok, Result-cases}
use mock_server.Database.Routes.{route_schema}
use mock_server.Database.Records.{esb_schema, pool_schema}
use mock_server.Database.Init.{
  routes_collection, esb_records_collection, message_pools_collection, Mongod, Action, ◌>>◌,
  DatabaseConfig, MongoStorage, create_routes, create_task_messages, create_esb_records,
  create_message_pools, init, connected, started, init_in_memory_db, init_db, disconnected,
  disconnect,
}

-- The documented behaviour of the server in memory.
pub record ServerLaws (D : Mongod) : Type 0 where
  pub running : D.State → D.Server → Bool
  pub start_ok :
      (version : String) (s : D.State) (v : D.Server)
      → (D.start version s).1 ≡ ok v
      → (v ≢ D.zero) × (running (D.start version s).0 v ≡ true)
  -- a stop ends the server it is given; connections and indexes end none
  pub stop_other : (v w : D.Server) (s : D.State) → v ≢ w → running (D.stop w s) v ≡ running s v
  pub connect_running :
      (uri : String) (v : D.Server) (s : D.State) → running (D.connect uri s).0 v ≡ running s v
  pub disconnect_running : (v : D.Server) (s : D.State) → running (D.disconnect s).0 v ≡ running s v
  pub create_running :
      (coll key : String) (unique : Bool) (v : D.Server) (s : D.State)
      → running (D.create_one coll key unique s).0 v ≡ running s v

module _ {D : Mongod} (L : ServerLaws D) where
  >>-running :
      (first next : Action D) (v : D.Server)
      → ((p : D.State × MongoStorage) → L.running (first p).0 v ≡ L.running p.0 v)
      → ((p : D.State × MongoStorage) → L.running (next p).0 v ≡ L.running p.0 v)
      → (p : D.State × MongoStorage) → L.running ((◌>>◌ D first next) p).0 v ≡ L.running p.0 v
  >>-running first next v keeps keeps' p = elim (Option-cases (first p).2) [
    | inl h ↦ rw h (keeps' ((first p).0, (first p).1) ∙ keeps p)
    | inr (e, h) ↦ rw h (keeps p)
  ]

  init-running :
      (cfg : DatabaseConfig) (v : D.Server) (p : D.State × MongoStorage)
      → L.running (init D cfg p).0 v ≡ L.running p.0 v
  unfolding init create_routes create_task_messages create_esb_records create_message_pools
  init-running cfg v (s, db) =
      let first : Action D = create_routes D cfg in
      let second : Action D = ◌>>◌ D first (create_task_messages D cfg) in
      let third : Action D = ◌>>◌ D second (create_esb_records D cfg) in
      >>-running third (create_message_pools D cfg) v
        (>>-running second (create_esb_records D cfg) v
          (>>-running first (create_task_messages D cfg) v
            (λ p. L.create_running routes_collection route_schema.key true v p.0) (λ p. refl))
          (λ p. L.create_running esb_records_collection esb_schema.key true v p.0))
        (λ p. L.create_running message_pools_collection pool_schema.key true v p.0)
        (s, record db { client = true })

  connected-running :
      (cfg : DatabaseConfig) (db : MongoStorage) (v : D.Server) (s : D.State) (e : Option Error)
      → L.running (connected D cfg db (s, e)).0 v ≡ L.running s v
  unfolding connected
  connected-running cfg db v s none = init-running cfg v (s, db)
  connected-running cfg db v s (some e) = refl

  disconnect-running :
      (v : D.Server) (s : D.State) (db : MongoStorage)
      → v ≢ D.zero
      → L.running (disconnect D (s, db)).0 v ≡ L.running s v
  unfolding disconnect disconnected
  disconnect-running v s db other = elim (Bool-cases db.client) [
    | inr without ↦ rw without refl
    | inl on ↦ rw on (elim (Option-cases (D.disconnect s).1) [
      | inl h ↦ rw h (L.stop_other v D.zero (D.disconnect s).0 other ∙ L.disconnect_running v s)
      | inr (e, h) ↦ rw h (L.disconnect_running v s)
    ])
  ]

  -- If InitDB returns nil, then it has started a server in memory, and that server still runs after
  -- Disconnect.
  disconnect-init_db :
      (cfg : DatabaseConfig) (s : D.State) (db : MongoStorage)
      → (init_db D cfg (s, db)).2 ≡ none
      → (v : D.Server) × ((D.start "5.0.2" s).1 ≡ ok v)
        × (L.running (disconnect D ((init_db D cfg (s, db)).0, (init_db D cfg (s, db)).1)).0 v
            ≡ true)
  unfolding init_db init_in_memory_db started connected
  disconnect-init_db cfg s db done = elim (Bool-cases cfg.in_memory) [
    | inr off ↦ let bad = rw (off, init_db) at done in cc
    | inl on ↦ elim (Result-cases (D.start "5.0.2" s).1) [
      | inl (e, h) ↦ let bad = rw (on, h, init_db) at done in cc
      | inr (v, h) ↦
          let (other, up) = L.start_ok "5.0.2" s v h in
          let boot : init_db D cfg (s, db) ≡ started D cfg db ((D.start "5.0.2" s).0, ok v) =
            ap (λ b. if b then init_in_memory_db D cfg (s, db) else (s, db, some panicked)) on
            ∙ ap (λ r. started D cfg db ((D.start "5.0.2" s).0, r)) h in
          let (s', e) = D.connect (D.uri v) (D.start "5.0.2" s).0 in
          (
            v,
            h,
            disconnect-running v (init_db D cfg (s, db)).0 (init_db D cfg (s, db)).1 other
                ∙ ap (λ p. L.running p.0 v) boot
                ∙ connected-running cfg db v s' e
                ∙ L.connect_running (D.uri v) v (D.start "5.0.2" s).0
                ∙ up,
          )
    ]
  ]

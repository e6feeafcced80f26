-- ===== src/Database/Init.antt =====
-- internal/database/database.go, the init of internal/database/mongo.go, and the creation of the four
-- collections in routes.go, task_messages.go, esb_records.go and message_pools.go.
pub mod Indexed
pub mod Running
use mock_server.Prelude.{ℕ, String, Bool, true, false, Option, none, some, if◌then◌else◌}
use mock_server.Errors.{Error, panicked, Result, ok, err}
use mock_server.Database.Store.{Schema}
use mock_server.Database.Routes.{route_schema}
use mock_server.Database.Records.{esb_schema, pool_schema}

-- The MongoDB driver and the server in memory (github.com/ONSdigital/dp-mongodb-in-memory), on one
-- machine. `zero` is the server of a variable that nothing was assigned to.
pub record Mongod : Type 1 where
  pub State : Type 0
  pub Server : Type 0
  pub zero : Server
  pub start : String → State → State × Result Server
  pub uri : Server → String
  pub stop : Server → State → State
  pub connect : String → State → State × Option Error
  pub disconnect : State → State × Option Error
  -- Indexes().CreateOne: the collection, the key of the index, and whether it is unique
  pub create_one : String → String → Bool → State → State × Option Error

-- configs.DatabaseConfig
pub record DatabaseConfig : Type 0 where
  pub in_memory : Bool
  pub cache_size : ℕ

abbrev pub routes_collection : String
routes_collection = "routes"

abbrev pub task_messages_collection : String
task_messages_collection = "task_messages"

abbrev pub esb_records_collection : String
esb_records_collection = "esb_records"

abbrev pub message_pools_collection : String
message_pools_collection = "message_pools"

-- A collection in the database `mongo_storage`, with the size of its cache if it has one.
pub record Handle : Type 0 where
  pub database : String
  pub collection : String
  pub cache : Option ℕ

-- What is assigned in `db`. Of the client only whether there is one is told: there is one connection.
pub record MongoStorage : Type 0 where
  pub client : Bool
  pub routes : Option Handle
  pub task_messages : Option Handle
  pub esb_records : Option Handle
  pub message_pools : Option Handle

abbrev handle : String → Option ℕ → Handle
handle collection cache = record {
  database = "mongo_storage";
  collection = collection;
  cache = cache;
}

module _ (D : Mongod) where
  -- The state, `db` and an error; an action that fails ends the sequence.
  abbrev pub Action : Type 0
  Action = D.State × MongoStorage → D.State × MongoStorage × Option Error

  abbrev then_on : Option Error → Action → Action
  then_on none next (s, db) = next (s, db)
  then_on (some e) next (s, db) = (s, db, some e)

  infixl 5 ◌>>◌
  abbrev ◌>>◌ : Action → Action → Action
  ◌>>◌ first next p = let (s, db, e) = first p in then_on e next (s, db)

  module _ (cfg : DatabaseConfig) where
    unfoldable pub create_routes : Action
    create_routes (s, db) =
        let (s', e) = D.create_one routes_collection route_schema.key true s in
        (s', record db { routes = some (handle routes_collection (some cfg.cache_size)) }, e)

    unfoldable pub create_task_messages : Action
    create_task_messages (s, db) =
        (s, record db { task_messages = some (handle task_messages_collection none) }, none)

    unfoldable pub create_esb_records : Action
    create_esb_records (s, db) =
        let (s', e) = D.create_one esb_records_collection esb_schema.key true s in
        (
          s',
          record db { esb_records = some (handle esb_records_collection (some cfg.cache_size)) },
          e,
        )

    unfoldable pub create_message_pools : Action
    create_message_pools (s, db) =
        let (s', e) = D.create_one message_pools_collection pool_schema.key true s in
        (
          s',
          record db {
            message_pools = some (handle message_pools_collection (some cfg.cache_size));
          },
          e,
        )

    unfoldable pub init : Action
    init (s, db) =
        (create_routes >> create_task_messages >> create_esb_records >> create_message_pools)
          (s, record db { client = true })

    connected : MongoStorage → D.State × Option Error → D.State × MongoStorage × Option Error
    connected db (s, some e) = (s, db, some e)
    connected db (s, none) = init (s, db)

    started : MongoStorage → D.State × Result D.Server → D.State × MongoStorage × Option Error
    unfolding connected
    started db (s, err e) = (s, db, some e)
    started db (s, ok server) = connected db (D.connect (D.uri server) s)

    -- `inMemoryServer, err :=` declares a variable of the function: the one of the package stays `zero`.
    unfoldable pub init_in_memory_db : Action
    unfolding started
    init_in_memory_db (s, db) = started db (D.start "5.0.2" s)

    unfoldable pub init_db : Action
    init_db (s, db) = if cfg.in_memory then init_in_memory_db (s, db) else (s, db, some panicked)

  disconnected : D.State × Option Error → D.State × Option Error
  disconnected (s, some e) = (s, some e)
  disconnected (s, none) = (D.stop D.zero s, none)

  -- Without a client the call panics.
  unfoldable pub disconnect : D.State × MongoStorage → D.State × Option Error
  unfolding disconnected
  disconnect (s, db) = if db.client then disconnected (D.disconnect s) else (s, some panicked)

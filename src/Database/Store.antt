-- ===== src/Database/Store.antt =====
-- The code that internal/database/routes.go, esb_records.go and message_pools.go share line by line:
-- a collection with a unique key, and a cache in front of it whose loader is `FindOne`.
-- The methods hold the RWMutex from their first line to their return (internal/util/guarded_run.go),
-- so each is one atomic step.
pub mod Coherence
use mock_server.Prelude.{
  ℕ, ◌≡◌, String, Bool, true, false, List, [], ◌∷◌, Option, none, some, if◌then◌else◌, map,
}
use mathlib.Core.Option
use mock_server.Errors.{
  DriverError, no_documents, duplicate_write, failure, Error, duplicate_key, driver, Result, ok,
  err,
}
use mock_server.Database.Documents.{Doc, field}
use mock_server.Database.Driver.{Collection, Cache}

-- What the three files do differently: the key field, the record's key, its document, and the error
-- for a missing record.
pub record Schema (V : Type 0) : Type 0 where
  pub key : String
  pub id : V → String
  pub encode : V → Doc
  pub decode : Doc → V
  pub missing : Error

-- `RunWithWriteLock` and `RunWithReadLock`: the task alone, between Lock and Unlock.
abbrev pub run_with_lock {ℓ} : {A : Type ℓ} → A → A
run_with_lock task = task

-- An error of the driver as an error of the program; `none` is `nil`.
abbrev pub error_of : Option DriverError → Option Error
error_of e = Option.map driver e

module _ {V : Type 0} (C : Collection) (K : Cache V) where
  pub record Store : Type 0 where
    pub coll : C.State
    pub cache : K.State

  module _ (S : Schema V) where
    -- The cache's LoaderFunc: `FindOne` by the key, and `Decode`.
    unfoldable pub load : C.State → String → V × Option DriverError
    load coll k = let (d, e) = C.find_one S.key k coll in (S.decode d, e)

    inserted : V → Store → C.State → Option DriverError → Store × Option Error
    inserted v s coll none =
        let (cache, e) = K.set (S.id v) v s.cache in
        (record { coll = coll; cache = cache }, error_of e)
    inserted v s coll (some duplicate_write) = (record s { coll = coll }, some duplicate_key)
    inserted v s coll (some e) = (record s { coll = coll }, some (driver e))

    -- addRoute, addESBRecord, addMessagePool
    unfoldable pub add : V → Store → Store × Option Error
    unfolding inserted
    add v s =
        run_with_lock (let (coll, e) = C.insert_one (S.encode v) s.coll in inserted v s coll e)

    deleted : String → Store → C.State → Option DriverError → Store × Option Error
    deleted k s coll none = (record { coll = coll; cache = K.remove k s.cache }, none)
    deleted k s coll (some no_documents) = (record s { coll = coll }, some S.missing)
    deleted k s coll (some e) = (record s { coll = coll }, some (driver e))

    -- removeESBRecord, removeMessagePool
    unfoldable pub remove : String → Store → Store × Option Error
    unfolding deleted
    remove k s = run_with_lock (let (coll, e) = C.delete_one S.key k s.coll in deleted k s coll e)

    fetched : V → Option DriverError → Result V
    fetched v none = ok v
    fetched v (some no_documents) = err S.missing
    fetched v (some e) = err (driver e)

    -- getRoute, getESBRecord, getMessagePool
    unfoldable pub get : String → Store → Store × Result V
    unfolding fetched load
    get k s = run_with_lock (
        let (cache, v, e) = K.get (load s.coll) k s.cache in
        (record s { cache = cache }, fetched v e))

    listed : List Doc → Option DriverError → Result (List V)
    listed ds none = ok (map S.decode ds)
    listed ds (some e) = err (driver e)

    -- listESBRecords, listMessagePools
    unfoldable pub list : Store → Result (List V)
    unfolding listed
    list s = run_with_lock (let (ds, e) = C.find [] "timestamp" s.coll in listed ds e)

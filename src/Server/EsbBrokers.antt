-- ===== src/Server/EsbBrokers.antt =====
-- internal/server/esb_brokers_api.go: the handlers of /api/brokers/esb, and the functions of
-- internal/brokers/esb.go that they call.
pub mod Caches
pub mod Uploads
use mock_server.Prelude.{String, List, [], ◌∷◌, Option, none, some, ◌==◌, if◌then◌else◌, map}
use mock_server.Errors.{
  Error, no_such_pool, no_such_record, duplicate_key, panicked, Result, ok, err,
}
use mock_server.Util.CodeWrappers.{wrap_code_for_esb, unwrap_code_for_esb}
use mock_server.Database.Documents.{MessagePool, EsbRecord}
use mock_server.Database.Driver.{Collection, Cache}
use mock_server.Database.Store.{Store}
use mock_server.Database.Records
use mock_server.Brokers.Registry.{Codec, Clients, Pool}
use mock_server.Brokers.Registry.Stored
use mock_server.Brokers.Registry.Stored.{Registry}
use mock_server.Server.Files.{FileStorage, gen_unique_filename}
use mock_server.Server.Http.{
  EsbView, BrokerTask, text, error_text, error_of, records, Response, reply, status_ok,
  status_no_content, status_bad_request, status_not_found, status_conflict,
  status_internal_server_error,
}
use mock_server.Server.PoolBrokers.{Scheduled, read_task, write_task}

abbrev pub fs_esb_dir : String
fs_esb_dir = "mapper"

abbrev pub empty_mapper : String
empty_mapper = ""

-- AddEsbRecord and AddEsbRecordWithMapper
abbrev pub esb_record : String → String → String → EsbRecord
esb_record pool_in pool_out mapper = record {
  pool_name_in = pool_in;
  pool_name_out = pool_out;
  mapper_script_name = mapper;
}

-- The `switch err` blocks.

specify_pool : Response
specify_pool = reply status_bad_request (error_text "specify pool param")

esb_view : EsbRecord → EsbView
esb_view r = record { pool_name_in = r.pool_name_in; pool_name_out = r.pool_name_out; code = "" }

records_reply : Result (List EsbRecord) → Response
unfolding esb_view
records_reply (err e) = reply status_internal_server_error (error_of e)
records_reply (ok rs) = reply status_ok (records (map esb_view rs))

-- `none`: UnwrapCodeForEsb panicked.
code_reply : Option String → Response
code_reply (some code) = reply status_ok (text code)
code_reply none = reply status_internal_server_error (error_of panicked)

read_reply : Result String → Response
unfolding code_reply
read_reply (err e) = reply status_internal_server_error (error_of e)
read_reply (ok code) = code_reply (unwrap_code_for_esb code)

added_reply : Option Error → Response
added_reply none = reply status_ok (text "Esb record successfully added!")
added_reply (some duplicate_key) =
    reply status_conflict (error_text "Esb record with the same in-pool already exists")
added_reply (some e) = reply status_internal_server_error (error_of e)

removed_reply : Option Error → Response
removed_reply none = reply status_no_content (text "Esb record successfully removed")
removed_reply (some no_such_record) =
    reply status_not_found (text "No such esb record was created before")
removed_reply (some e) = reply status_internal_server_error (error_of e)

pool_error_reply : Error → Response
pool_error_reply no_such_pool = reply status_not_found (error_text "No such pool")
pool_error_reply e = reply status_internal_server_error (error_of e)

module _ (C : Collection) (K : Cache EsbRecord) (F : FileStorage) where
  pub record Esb : Type 0 where
    pub store : Store C K
    pub files : F.State

  -- GET /esb
  unfoldable pub get_esb : Esb → Esb × Response
  unfolding records_reply
  get_esb s = (s, records_reply (Records.list_esb_records C K s.store))

  record_reply : F.State → Result EsbRecord → Response
  unfolding read_reply
  record_reply files (err no_such_record) =
      reply status_not_found (error_text "Such record was not created before")
  record_reply files (err e) = reply status_internal_server_error (error_of e)
  record_reply files (ok r) =
      if r.mapper_script_name == empty_mapper
      then reply status_bad_request (error_text "Such record does not have mapper code")
      else read_reply (F.read fs_esb_dir r.mapper_script_name files)

  -- GET /esb/code?pool_in=
  unfoldable pub get_esb_code : String → Esb → Esb × Response
  unfolding record_reply specify_pool
  get_esb_code pool_in s =
      if pool_in == ""
      then (s, specify_pool)
      else (let (store, r) = Records.get_esb_record C K pool_in s.store in
          (record s { store = store }, record_reply s.files r))

  add_record : EsbRecord → Esb → Esb × Response
  unfolding added_reply
  add_record r s =
      let (store, e) = Records.add_esb_record C K r s.store in
      (record s { store = store }, added_reply e)

  add_with_mapper : EsbView → String → Esb → F.State × Option Error → Esb × Response
  unfolding add_record
  add_with_mapper r script s (files, some e) =
      (record s { files = files }, reply status_internal_server_error (error_of e))
  add_with_mapper r script s (files, none) =
      add_record (esb_record r.pool_name_in r.pool_name_out script) (record s { files = files })

  -- POST /esb; `stamp` is what GenUniqueFilename reads off the clock.
  unfoldable pub post_esb : String → Result EsbView → Esb → Esb × Response
  unfolding add_with_mapper add_record
  post_esb stamp (err e) s = (s, reply status_bad_request (error_of e))
  post_esb stamp (ok r) s =
      if r.code == ""
      then add_record (esb_record r.pool_name_in r.pool_name_out empty_mapper) s
      else (let script = gen_unique_filename stamp "py" in
          add_with_mapper r script s (F.write fs_esb_dir script (wrap_code_for_esb r.code) s.files))

  -- DELETE /esb?pool_in=
  unfoldable pub delete_esb : String → Esb → Esb × Response
  unfolding removed_reply specify_pool
  delete_esb pool_in s =
      if pool_in == ""
      then (s, specify_pool)
      else (let (store, e) = Records.remove_esb_record C K pool_in s.store in
          (record s { store = store }, removed_reply e))

module _ (J : Codec) (B : Clients) (C : Collection) (K : Cache MessagePool) where
  scheduled_pair :
      BrokerTask
      → Registry J B C K × Result (Pool J)
      → Registry J B C K × List (Scheduled J) × Response
  unfolding pool_error_reply
  scheduled_pair task (s, err e) = (s, [], pool_error_reply e)
  scheduled_pair task (s, ok pool) = (
    s,
    write_task pool task.messages ∷ read_task pool ∷ [],
    reply status_no_content (text "Task successfully submited to esb pair in-pool"),
  )

  -- POST /esb/task: the tasks are scheduled in this order.
  unfoldable pub post_esb_task :
      Result BrokerTask → Registry J B C K → Registry J B C K × List (Scheduled J) × Response
  unfolding scheduled_pair
  post_esb_task (err e) s = (s, [], reply status_bad_request (error_of e))
  post_esb_task (ok task) s = scheduled_pair task (Stored.get_message_pool J B C K task.pool_name s)

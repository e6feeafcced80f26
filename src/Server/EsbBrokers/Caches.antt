-- ===== src/Server/EsbBrokers/Caches.antt =====
-- internal/server/esb_brokers_api.go: the handlers keep the caches of the ESB records and of the pools
-- true to their collections.
use mock_server.Prelude.{◌≢◌, inl, inr, refl, String, ◌==◌, Option, none, some, Bool-cases}
use mock_server.Errors.{Error, Result, ok, err}
use mock_server.Util.CodeWrappers.{wrap_code_for_esb}
use mock_server.Database.Documents.{
  MessagePool, EsbRecord, encode_esb_record, decode_esb_record-encode_esb_record, field,
}
use mock_server.Database.Driver.{Collection, Cache, CollectionLaws, CacheLaws}
use mock_server.Database.Store.Coherence.{
  SchemaLaws, IsCoherent, add-IsCoherent, get-IsCoherent, remove-IsCoherent,
}
use mock_server.Database.Records
use mock_server.Database.Records.{esb_schema}
use mock_server.Brokers.Registry.{Codec, Clients, Pool}
use mock_server.Brokers.Registry.Stored
use mock_server.Brokers.Registry.Stored.{Registry}
use mock_server.Brokers.Registry.Stored.Caches.{
  IsCoherentRegistry, get_message_pool-IsCoherentRegistry,
}
use mock_server.Server.Files.{FileStorage, gen_unique_filename}
use mock_server.Server.Http.{EsbView, BrokerTask, status_internal_server_error}
use mock_server.Server.EsbBrokers.{
  Esb, fs_esb_dir, get_esb_code, add_record, add_with_mapper, post_esb, delete_esb, scheduled_pair,
  post_esb_task,
}

pub esb_laws : SchemaLaws esb_schema
unfolding encode_esb_record field
esb_laws = record { decode-encode = decode_esb_record-encode_esb_record; field-encode = λ r. refl }

module _ {C : Collection} {K : Cache EsbRecord} {F : FileStorage}
    (L : CollectionLaws C "pool_name_in") (M : CacheLaws K) where
  abbrev IsKept : Esb C K F → Type 0
  IsKept s = IsCoherent esb_schema L M s.store

  pub get_esb_code-IsCoherent :
      (pool_in : String) (s : Esb C K F) → IsKept s → IsKept (get_esb_code C K F pool_in s).0
  unfolding get_esb_code Records.get_esb_record
  get_esb_code-IsCoherent pool_in s c = elim (Bool-cases (pool_in == "")) [
    | inl e ↦ rw e c
    | inr e ↦ rw e (get-IsCoherent esb_schema L M pool_in s.store c)
  ]

  add_record-IsCoherent :
      (r : EsbRecord) (s : Esb C K F) → IsKept s → IsKept (add_record C K F r s).0
  unfolding add_record Records.add_esb_record
  add_record-IsCoherent r s c = add-IsCoherent esb_schema L M esb_laws r s.store c

  add_with_mapper-IsCoherent :
      (r : EsbView) (script : String) (s : Esb C K F) (files : F.State) (e : Option Error)
      → IsKept s
      → IsKept (add_with_mapper C K F r script s (files, e)).0
  unfolding add_with_mapper
  add_with_mapper-IsCoherent r script s files (some e) c = c
  add_with_mapper-IsCoherent r script s files none c =
      add_record-IsCoherent _ (record s { files = files }) c

  pub post_esb-IsCoherent :
      (stamp : String) (r : Result EsbView) (s : Esb C K F)
      → IsKept s
      → IsKept (post_esb C K F stamp r s).0
  unfolding post_esb
  post_esb-IsCoherent stamp (err e) s c = c
  post_esb-IsCoherent stamp (ok r) s c = elim (Bool-cases (r.code == "")) [
    | inl e ↦ rw e (add_record-IsCoherent _ s c)
    | inr e ↦
        let script = gen_unique_filename stamp "py" in
        let out = F.write fs_esb_dir script (wrap_code_for_esb r.code) s.files in
        rw e (add_with_mapper-IsCoherent r script s out.0 out.1 c)
  ]

  pub delete_esb-IsCoherent :
      (pool_in : String) (s : Esb C K F)
      → (delete_esb C K F pool_in s).1.status ≢ status_internal_server_error
      → IsKept s
      → IsKept (delete_esb C K F pool_in s).0
  unfolding delete_esb Records.remove_esb_record
  delete_esb-IsCoherent pool_in s fine c = elim (Bool-cases (pool_in == "")) [
    | inl e ↦ rw e c
    | inr e ↦ rw e (
        remove-IsCoherent esb_schema L M pool_in s.store
          (λ d h. let bad = rw (e, h) at fine in bad refl) c)
  ]

module _ {J : Codec} {B : Clients} {C : Collection} {K : Cache MessagePool}
    (L : CollectionLaws C "name") (M : CacheLaws K) where
  scheduled_pair-IsCoherentRegistry :
      (task : BrokerTask) (s : Registry J B C K) (r : Result (Pool J))
      → IsCoherentRegistry L M s
      → IsCoherentRegistry L M (scheduled_pair J B C K task (s, r)).0
  unfolding scheduled_pair
  scheduled_pair-IsCoherentRegistry task s (err e) c = c
  scheduled_pair-IsCoherentRegistry task s (ok p) c = c

  pub post_esb_task-IsCoherentRegistry :
      (r : Result BrokerTask) (s : Registry J B C K)
      → IsCoherentRegistry L M s
      → IsCoherentRegistry L M (post_esb_task J B C K r s).0
  unfolding post_esb_task
  post_esb_task-IsCoherentRegistry (err e) s c = c
  post_esb_task-IsCoherentRegistry (ok task) s c =
      let found = Stored.get_message_pool J B C K task.pool_name s in
      scheduled_pair-IsCoherentRegistry task found.0 found.1
        (get_message_pool-IsCoherentRegistry L M task.pool_name s c)

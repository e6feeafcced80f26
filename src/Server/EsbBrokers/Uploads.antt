-- ===== src/Server/EsbBrokers/Uploads.antt =====
-- internal/server/esb_brokers_api.go: the mapper code of an ESB record reads back as it was uploaded.
use mock_server.Prelude.{
  ◌≡◌, ◌≢◌, inl, inr, refl, ap, ◌∙◌, String, false, Option, none, some, ◌==◌, arith, eq_iff,
  eq_refl, Option-cases,
}
use mock_server.Errors.{Error, ok}
use mock_server.Util.Text.{◌^◌}
use mock_server.Util.CodeWrappers.{wrap_code_for_esb, unwrap-wrap_code_for_esb}
use mock_server.Database.Documents.{EsbRecord}
use mock_server.Database.Driver.{Collection, Cache, CollectionLaws, CacheLaws}
use mock_server.Database.Store.{Store}
use mock_server.Database.Store.Coherence.{stored, IsCoherent, add-Adds, add-IsCoherent, get-Gets}
use mock_server.Database.Records
use mock_server.Database.Records.{esb_schema}
use mock_server.Server.Files.{
  FileStorage, FileStorageLaws, gen_unique_filename, gen_unique_filename-ne-empty,
}
use mock_server.Server.Http.{EsbView, reply, text, status_ok}
use mock_server.Server.EsbBrokers.{
  Esb, fs_esb_dir, empty_mapper, esb_record, get_esb_code, record_reply, read_reply, add_record,
  add_with_mapper, added_reply, post_esb,
}
use mock_server.Server.EsbBrokers.Caches.{esb_laws}

script_named : (stamp : String) → (gen_unique_filename stamp "py" == empty_mapper) ≡ false
script_named stamp =
    let full = gen_unique_filename-ne-empty stamp "py" in
    ground (arith, eq_iff (gen_unique_filename stamp "py") "")

module _ {C : Collection} {K : Cache EsbRecord} {F : FileStorage}
    (L : CollectionLaws C "pool_name_in") (M : CacheLaws K) (N : FileStorageLaws F) where
  -- A record that is stored is looked up, while the database answers.
  get_esb_record_stored :
      (r : EsbRecord) (s : Store C K)
      → IsCoherent esb_schema L M s
      → L.Up s.coll
      → stored esb_schema L M s r.pool_name_in ≡ some r
      → (Records.get_esb_record C K r.pool_name_in s).1 ≡ ok r
  unfolding Records.get_esb_record
  get_esb_record_stored r s c up here = elim (get-Gets esb_schema L M r.pool_name_in s c) [
    | inl (v, e, now) ↦ let same : v ≡ r = cc in e ∙ ap ok same
    | inr (inl (e, gone)) ↦ cc
    | inr (inr (e, _, down)) ↦ absurd (down up)
  ]

  abbrev written : String → EsbView → Esb C K F → F.State × Option Error
  written stamp r s =
      F.write fs_esb_dir (gen_unique_filename stamp "py") (wrap_code_for_esb r.code) s.files

  abbrev made : String → EsbView → EsbRecord
  made stamp r = esb_record r.pool_name_in r.pool_name_out (gen_unique_filename stamp "py")

  abbrev added : String → EsbView → Esb C K F → Store C K × Option Error
  added stamp r s = Records.add_esb_record C K (made stamp r) s.store

  -- With code, 200 is answered only where the file is written and the record is added.
  post_esb_ok :
      (stamp : String) (r : EsbView) (s : Esb C K F)
      → r.code ≢ ""
      → (post_esb C K F stamp (ok r) s).1 ≡ reply status_ok (text "Esb record successfully added!")
      → ((written stamp r s).1 ≡ none)
        × ((added stamp r s).1 ≡ none)
        × ((post_esb C K F stamp (ok r) s).0
            ≡ record { store = (added stamp r s).0; files = (written stamp r s).0 })
  unfolding post_esb add_with_mapper add_record added_reply
  post_esb_ok stamp r s coded done =
      let on : (r.code == "") ≡ false = ground (arith, eq_iff r.code "") in
      let done' = rw on at done in
      elim (Option-cases (written stamp r s).1) [
        | inr (e, bad) ↦ ground arith
        | inl fine ↦ elim (Option-cases (added stamp r s).1) [
          | inr (e, bad) ↦ ground arith
          | inl nil ↦ (fine, nil, rw (on, fine) refl)
        ]
      ]

  -- The record and its mapper's code, as other requests and the ESB find them.
  abbrev pub Uploaded : String → EsbView → Esb C K F → Type 0
  Uploaded stamp r s =
      let script = gen_unique_filename stamp "py" in
      ((Records.get_esb_record C K r.pool_name_in s.store).1 ≡ ok (made stamp r))
      × (F.read fs_esb_dir script s.files ≡ ok (wrap_code_for_esb r.code))
      × ((get_esb_code C K F r.pool_name_in s).1 ≡ reply status_ok (text (r.code ^ "\n")))

  -- If the in-pool and the code are not empty, the cache of the ESB records agrees with the
  -- collection and the database answers, then after POST /esb has answered 200, the record of the
  -- in-pool is looked up with the out-pool and a mapper script, which reads as the wrapped code,
  -- and GET /esb/code answers 200 with the code that was uploaded and a newline more.
  pub get_esb_code-post_esb :
      (stamp : String) (r : EsbView) (s : Esb C K F)
      → r.pool_name_in ≢ ""
      → r.code ≢ ""
      → IsCoherent esb_schema L M s.store
      → (post_esb C K F stamp (ok r) s).1 ≡ reply status_ok (text "Esb record successfully added!")
      → L.Up (post_esb C K F stamp (ok r) s).0.store.coll
      → Uploaded stamp r (post_esb C K F stamp (ok r) s).0
  unfolding Records.add_esb_record get_esb_code record_reply read_reply
  get_esb_code-post_esb stamp r s named coded c done up =
      let (fine, nil, same) = post_esb_ok stamp r s coded done in
      let off : (r.pool_name_in == "") ≡ false = ground (arith, eq_iff r.pool_name_in "") in
      let text =
        N.read_contents fs_esb_dir (gen_unique_filename stamp "py") (wrap_code_for_esb r.code) _ (
          N.write_contents fs_esb_dir (gen_unique_filename stamp "py") (wrap_code_for_esb r.code)
            s.files fine) in
      elim (add-Adds esb_schema L M esb_laws (made stamp r) s.store) [
        | inr (bad, _) ↦ absurd (bad nil)
        | inl (_, (_, after)) ↦
            let got =
              get_esb_record_stored (made stamp r) (added stamp r s).0
                (add-IsCoherent esb_schema L M esb_laws (made stamp r) s.store c) (rw same at up)
                (rw (after r.pool_name_in, eq_refl r.pool_name_in) refl) in
            rw same (
              got,
              text,
              rw (off, got, script_named stamp, text, unwrap-wrap_code_for_esb r.code) refl,
            )
      ]

-- ===== src/Tests/Uploads.antt =====
-- internal/server/dynamic_routes_api.go with files that are a function.
use mock_server.Prelude.{
  ◌≡◌, refl, String, ◌&&◌, [], ◌∷◌, Option, none, some, ◌==◌, if◌then◌else◌, eq_refl,
}
use mock_server.Errors.{Result, ok, err, failed}
use mock_server.Util.Text.{◌^◌}
use mock_server.Database.Routes
use mock_server.Database.Routes.{route_schema, dynamic_route}
use mock_server.Server.NoRoute.{no_route, handle_dynamic_route_request}
use mock_server.Server.NoRoute.Scripts.{no_route-post_dynamic}
use mock_server.Tests.Serving.{workers, urls, get_of}
use mock_server.Server.Files.{gen_unique_filename, FileStorage, FileStorageLaws}
use mock_server.Server.Http.{DynamicEndpoint, reply, text, status_ok}
use mock_server.Util.CodeWrappers.{wrap_code_for_dyn_handle}
use mock_server.Server.DynamicRoutes.{fs_dyn_handle_dir, Dynamic, post_dynamic, get_code}
use mock_server.Server.DynamicRoutes.Uploads.{get_code-post_dynamic}
use mock_server.Database.Documents.{EsbRecord, field, encode_esb_record}
use mock_server.Database.Records
use mock_server.Database.Store
use mock_server.Database.Store.Coherence.{stored}
use mock_server.Server.Http.{EsbView}
use mock_server.Server.EsbBrokers.{Esb, post_esb}
use mock_server.Server.EsbBrokers.Uploads.{Uploaded, get_esb_code-post_esb}
use mock_server.Tests.Mongo.{
  mongo, mongo_laws, gcache, gcache_laws, keyed, keyed_laws, caching, caching_laws,
}
use mock_server.Tests.Endpoints.{some_routes, some_routes-IsValid, run}

abbrev contents_reply : Option String → Result String
contents_reply none = err (failed "no such file")
contents_reply (some t) = ok t

abbrev pub files : FileStorage
files = record {
  State = String → String → Option String;
  read = λ folder name s. contents_reply (s folder name);
  write = λ folder name t s. (λ f n. if f == folder && n == name then some t else s f n, none);
}

files_laws : FileStorageLaws files
files_laws = record {
  contents = λ s. s;
  read_contents = λ folder name t s h. rw h refl;
  write_contents = λ folder name t s h. rw (eq_refl folder, eq_refl name) refl;
}

abbrev before : Dynamic mongo gcache files
before = record { store = some_routes; files = λ f n. none }

abbrev uploaded : String → String → DynamicEndpoint
uploaded path code = record { path = path; code = code }

upload : Unit {0}
unfolding run post_dynamic Routes.add_dynamic_endpoint gen_unique_filename
upload = tt

abbrev after_one : Dynamic mongo gcache files
after_one = (post_dynamic mongo gcache files "20240101000000" (ok (uploaded "/one" "1")) before).0

get_code-post_dynamic_example :
    (get_code mongo gcache files "/one" after_one).1 ≡ reply status_ok (text ("1" ^ "\n")) ∷ []
unfolding upload
get_code-post_dynamic_example =
    get_code-post_dynamic mongo_laws gcache_laws files_laws "20240101000000" (uploaded "/one" "1")
      before (λ e. cc) some_routes-IsValid.coherent refl tt

no_route-post_dynamic_example :
    (files.read fs_dyn_handle_dir (gen_unique_filename "20240101000000" "py") after_one.files
      ≡ ok (wrap_code_for_dyn_handle "1"))
    × ((no_route workers mongo gcache urls (get_of "/one") after_one.store tt).2
        ≡ (handle_dynamic_route_request workers
            (get_of "/one")
            (dynamic_route "/one" (gen_unique_filename "20240101000000" "py"))
            tt).1)
unfolding upload
no_route-post_dynamic_example =
    no_route-post_dynamic mongo_laws gcache_laws files_laws workers urls "20240101000000"
      (uploaded "/one" "1") (get_of "/one") before tt some_routes-IsValid refl tt refl

abbrev records : Esb (keyed "pool_name_in") (caching EsbRecord) files
records = record { store = record { coll = λ _. none; cache = λ _. none }; files = λ f n. none }

abbrev mapped : EsbView
mapped = record { pool_name_in = "in"; pool_name_out = "out"; code = "def func(msgs): ..." }

get_esb_code-post_esb_example :
    Uploaded
      (keyed_laws "pool_name_in")
      (caching_laws EsbRecord)
      files_laws
      "20240101000000"
      mapped
      (post_esb
        (keyed "pool_name_in")
        (caching EsbRecord)
        files
        "20240101000000"
        (ok mapped)
        records).0
unfolding keyed_laws caching_laws stored post_esb Records.add_esb_record Store.add field
    encode_esb_record
get_esb_code-post_esb_example =
    get_esb_code-post_esb (keyed_laws "pool_name_in") (caching_laws EsbRecord) files_laws
      "20240101000000" mapped records (λ e. cc) (λ e. cc) (λ k v h. cc) refl tt

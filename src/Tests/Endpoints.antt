-- ===== src/Tests/Endpoints.antt =====
-- internal/database over the collection and the cache of Tests/Mongo.antt.
use mock_server.Prelude.{◌≡◌, ◌≢◌, ◌⊎◌, String, List, [], ◌∷◌, none, arith}
use mock_server.Database.Documents.{set_fields, encode_route, decode_route, field}
use mock_server.Database.Routes
use mock_server.Database.Store
use mock_server.Database.Store.Coherence.{
  stored, add_keeps, remove_keeps, get-Gets, Adds, Removes, Gets, IsCoherent, IsCoherentAt,
}
use mock_server.Database.Routes.{
  route_schema, static_route, proxy_route, update_route, update_proxy_endpoint,
  get_proxy_endpoint_proxy_url,
}
use mock_server.Database.Routes.Update.{Updates, update_route-Updates}
use mock_server.Database.Routes.Calls.{
  route_laws, Call, add_static, update_static, add_proxy, add_dynamic, remove, get, exec, exec_all,
  IsValid, exec_all-IsValid,
}
use mock_server.Tests.Mongo.{mongo, mongo_laws, gcache, gcache_laws, empty_store}
use mock_server.Tests.Mongo

pub empty_store-IsValid : IsValid mongo_laws gcache_laws empty_store
unfolding mongo_laws gcache_laws stored
empty_store-IsValid = record { coherent = λ k v h. cc; plain = λ k r h. ground arith }

abbrev calls : List Call
calls =
    add_static "/a" "one"
    ∷ add_proxy "/p" "http://h"
    ∷ update_static "/a" "two"
    ∷ get "/a"
    ∷ add_dynamic "/a" "script_1.py"
    ∷ remove "/p"
    ∷ []

-- A store with one static and one proxy endpoint.
abbrev pub some_routes : Mongo.Routes
some_routes =
    exec_all mongo gcache empty_store (add_static "/a" "one" ∷ add_proxy "/p" "http://h" ∷ [])

pub some_routes-IsValid : IsValid mongo_laws gcache_laws some_routes
some_routes-IsValid =
    exec_all-IsValid mongo_laws gcache_laws empty_store
      (add_static "/a" "one" ∷ add_proxy "/p" "http://h" ∷ []) ((λ x. x), ((λ x. x), tt))
      (tt, (tt, tt)) empty_store-IsValid

get-Gets_example :
    Gets route_schema mongo_laws gcache_laws "/a" some_routes
      (Store.get mongo gcache route_schema "/a" some_routes).1
get-Gets_example =
    get-Gets route_schema mongo_laws gcache_laws "/a" some_routes some_routes-IsValid.coherent

add_keeps_example :
    let r = Store.add mongo gcache route_schema (static_route "/b" "three") some_routes in
    Adds route_schema mongo_laws gcache_laws route_laws (static_route "/b" "three") some_routes r
    × IsCoherent route_schema mongo_laws gcache_laws r.0
add_keeps_example =
    add_keeps route_schema mongo_laws gcache_laws route_laws (static_route "/b" "three") some_routes
      some_routes-IsValid.coherent

remove_keeps_example :
    let r = Store.remove mongo gcache route_schema "/a" some_routes in
    Removes route_schema mongo_laws gcache_laws "/a" some_routes r
    × ((j : String)
        → ("/a" ≢ j) ⊎ (r.1 ≡ none)
        → IsCoherentAt route_schema mongo_laws gcache_laws j r.0)
remove_keeps_example =
    remove_keeps route_schema mongo_laws gcache_laws "/a" some_routes some_routes-IsValid.coherent

update_route-Updates_example :
    Updates mongo_laws gcache_laws
      (static_route "/a" "two")
      some_routes
      (update_route mongo gcache (static_route "/a" "two") some_routes)
update_route-Updates_example =
    update_route-Updates mongo_laws gcache_laws (static_route "/a" "two") some_routes

-- The proxy endpoint of the store is updated, and then its entry is dropped.
abbrev updated_routes : Mongo.Routes
updated_routes = (update_proxy_endpoint mongo gcache "/p" "http://new" some_routes).0

abbrev evicted_routes : Mongo.Routes
evicted_routes = record updated_routes { cache = λ _. none }

unfoldable pub run : Unit {0}
unfolding exec_all exec Routes.update_static_endpoint Routes.remove_static_endpoint
    Routes.remove_route update_proxy_endpoint update_route stored Store.add set_fields encode_route
    decode_route field Routes.add_static_endpoint Routes.add_proxy_endpoint Routes.add_route
    mongo_laws gcache_laws
run = tt

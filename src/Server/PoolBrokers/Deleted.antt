-- ===== src/Server/PoolBrokers/Deleted.antt =====
-- internal/server/pool_brokers_api.go: a pool that a client has removed, as other requests find it.
use mock_server.Prelude.{
  ◌≡◌, ◌≢◌, refl, ap, false, String, [], ◌∷◌, ◌==◌, eq_iff, none, Option, arith,
}
use mock_server.Errors.{Error, ok}
use mock_server.Database.Documents.{MessagePool}
use mock_server.Database.Driver.{Collection, Cache, CollectionLaws, CacheLaws}
use mock_server.Brokers.Registry.{Codec, Clients}
use mock_server.Brokers.Registry.Stored
use mock_server.Brokers.Registry.Stored.Caches.{IsCoherentRegistry}
use mock_server.Brokers.Registry.Stored.Lookup.{get_message_pool-remove_message_pool}
use mock_server.Server.Http.{
  BrokerTask, text, error_text, Response, reply, status_no_content, status_not_found,
}
use mock_server.Server.PoolBrokers.{
  Brokers, schedule, post_write, get_config, config_reply, pool_error_reply, delete_pool,
  removed_reply,
}

abbrev pub removed : Response
removed = reply status_no_content (text "Message pool successfully removed")

abbrev pub not_found : Response
not_found = reply status_not_found (error_text "No such pool")

removed_reply_ok : (e : Option Error) → (removed_reply e).status ≡ status_no_content → e ≡ none
unfolding removed_reply
removed_reply_ok e h = ground arith

module _ {J : Codec} {B : Clients} {C : Collection} {K : Cache MessagePool} {T : Collection}
    (L : CollectionLaws C "name") (M : CacheLaws K) where
  -- If the name is not empty, the cache of the pools agrees with the collection and the database
  -- answers, then after DELETE /pool has answered 204, GET /pool/config and POST /pool/write under
  -- the same name each answer 404, and no task is scheduled.
  pub post_write-delete_pool :
      (name : String) (task : BrokerTask) (s : Brokers J B C K T)
      → name ≢ ""
      → IsCoherentRegistry L M s.registry
      → (delete_pool J B C K T name s).1 ≡ removed ∷ []
      → L.Up (delete_pool J B C K T name s).0.registry.pools.coll
      → task.pool_name ≡ name
      → let s' = (delete_pool J B C K T name s).0 in
        ((get_config J B C K T name s').1 ≡ not_found ∷ [])
        × ((post_write J B C K T (ok task) s').1 ≡ not_found ∷ [])
        × ((post_write J B C K T (ok task) s').0.scheduled ≡ s.scheduled)
  unfolding delete_pool get_config config_reply post_write schedule pool_error_reply
  post_write-delete_pool name task s full c done up same =
      let off : (name == "") ≡ false = ground (arith, eq_iff name "") in
      let done' = rw off at done in
      let gone = (Stored.remove_message_pool J B C K name s.registry).1 in
      let answer : removed_reply gone ≡ removed = cc in
      let nil = removed_reply_ok gone (ap (λ r. r.status) answer) in
      let lost = get_message_pool-remove_message_pool L M name s.registry c nil (rw off at up) in
      rw (off, same, lost, config_reply, schedule) (refl, refl, refl)

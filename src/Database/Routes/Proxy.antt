-- ===== src/Database/Routes/Proxy.antt =====
-- internal/database/routes.go: the update of a proxy endpoint reaches the cache and not the collection.
use mock_server.Prelude.{
  ◌≡◌, ◌⊎◌, inl, inr, refl, ap, String, none, some, arith, eq_refl, eq_iff, Option-cases,
}
use mathlib.Core.Option
use mock_server.Errors.{ok}
use mock_server.Database.Documents.{Route, proxy_endpoint_type}
use mock_server.Database.Driver.{Collection, Cache, CollectionLaws, CacheLaws}
use mock_server.Database.Store.{Store}
use mock_server.Database.Store.Coherence.{stored, get_evicted-Gets}
use mock_server.Database.Routes.{
  route_schema, proxy_route, update_proxy_endpoint, update_route, get_route,
  get_proxy_endpoint_proxy_url,
}
use mock_server.Database.Routes.Update.{routes, overwritten, update_route-Updates}

module _ {C : Collection} {K : Cache Route} (L : CollectionLaws C "path") (M : CacheLaws K) where
  -- After UpdateProxyEndpoint has returned nil on a stored route, the collection still stores the
  -- old proxy URL, and the cache, if it holds the path, holds the new one.
  update_proxy_endpoint_stored :
      (path url : String) (s : Store C K) (old : Route)
      → routes L M s path ≡ some old
      → (update_proxy_endpoint C K path url s).1 ≡ none
      → let s' = (update_proxy_endpoint C K path url s).0 in
        (Option.map (λ r. r.proxy_url) (routes L M s' path) ≡ some old.proxy_url)
        × ((M.held s'.cache path ≡ none)
            ⊎ ((r : Route) × (M.held s'.cache path ≡ some r) × (r.proxy_url ≡ url)))
  unfolding update_proxy_endpoint
  update_proxy_endpoint_stored path url s old found done =
      elim (update_route-Updates L M (proxy_route path url) s) [
        | inr (bad, _, _) ↦ absurd (bad done)
        | inl (_, now, (r, here, kind, after)) ↦ (
          rw (after path, eq_refl path) (ground arith),
          elim (Option-cases (M.held (update_route C K (proxy_route path url) s).0.cache path)) [
            | inl e ↦ inl e
            | inr (r', e) ↦ inr (r', e, new r' (rw now at e))
          ],
        )
      ]
    where
      new :
          (r' : Route)
          → M.held (K.set path (proxy_route path url) s.cache).0 path ≡ some r'
          → r'.proxy_url ≡ url
      new r' h = elim (M.held-set path (proxy_route path url) s.cache path r' h) [
        | inl (_, e) ↦ ap (λ r. r.proxy_url) e
        | inr (other, _) ↦ absurd (other refl)
      ]

  kept_route :
      (path url : String) (s t : Store C K) (old : Route)
      → routes L M s path ≡ some old
      → (update_proxy_endpoint C K path url s).1 ≡ none
      → t.coll ≡ (update_proxy_endpoint C K path url s).0.coll
      → (r : Route) × (routes L M t path ≡ some r)
        × (r.kind ≡ proxy_endpoint_type)
        × (r.proxy_url ≡ old.proxy_url)
  unfolding update_proxy_endpoint stored
  kept_route path url s t old found done same =
      elim (update_route-Updates L M (proxy_route path url) s) [
        | inr (bad, _, _) ↦ absurd (bad done)
        | inl (_, now, (r, here, kind, after)) ↦ (
          overwritten L M (proxy_route path url) r,
          rw same (rw (after path, eq_refl path) refl),
          kind,
          ground arith,
        )
      ]

  -- After UpdateProxyEndpoint has returned nil on a stored route, once the cache has dropped the
  -- entry and while the database answers, a read returns the old URL.
  pub get-update_proxy_endpoint_evicted :
      (path url : String) (s t : Store C K) (old : Route)
      → routes L M s path ≡ some old
      → (update_proxy_endpoint C K path url s).1 ≡ none
      → t.coll ≡ (update_proxy_endpoint C K path url s).0.coll
      → M.held t.cache path ≡ none
      → L.Up t.coll
      → (get_proxy_endpoint_proxy_url C K path t).1 ≡ ok old.proxy_url
  unfolding get_proxy_endpoint_proxy_url get_route
  get-update_proxy_endpoint_evicted path url s t old found done same lost up =
      let (r, stays, kind, url_same) = kept_route path url s t old found done same in
      elim (get_evicted-Gets route_schema L M path t lost) [
        | inl (v, e, now) ↦ rw e (ground (arith, eq_iff v.kind proxy_endpoint_type))
        | inr (inl (e, gone)) ↦ cc
        | inr (inr (e, _, down)) ↦ absurd (down up)
      ]

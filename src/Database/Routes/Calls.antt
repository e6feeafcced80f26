-- ===== src/Database/Routes/Calls.antt =====
-- internal/database/mongo.go: the route functions as calls, in any order.
use mock_server.Prelude.{
  ◌≡◌, ◌≢◌, ◌⊎◌, inl, inr, refl, ap, sym, ◌∙◌, String, List, [], ◌∷◌, Option, none, some, arith,
  eq_iff, All, Option-cases,
}
use mock_server.Errors.{
  DriverError, Error, driver, no_documents, duplicate_write, failure, no_such_path,
}
use mock_server.Database.Documents.{
  Route, field, encode_route, decode_route-encode_route, static_endpoint_type, proxy_endpoint_type,
  dynamic_endpoint_type,
}
use mock_server.Database.Driver.{Collection, Cache, CollectionLaws, CacheLaws}
use mock_server.Database.Store
use mock_server.Database.Store.{Store}
use mock_server.Database.Store.Coherence.{
  SchemaLaws, stored, IsCoherent, IsCoherentAt, add-Adds, add-IsCoherent, add-IsCoherentAt,
  get-IsCoherent, get-IsCoherentAt, remove-Removes, remove-IsCoherent, remove-IsCoherentAt,
}
use mock_server.Database.Routes
use mock_server.Database.Routes.{route_schema, static_route, proxy_route, dynamic_route}
use mock_server.Database.Routes.Update.{
  routes, overwritten, update_route-Updates, update_route-IsCoherent, update_route-IsCoherentAt,
}

pub route_laws : SchemaLaws route_schema
unfolding encode_route field
route_laws = record { decode-encode = decode_route-encode_route; field-encode = λ r. refl }

pub data Call : Type 0 where
  add_static update_static add_proxy update_proxy add_dynamic update_dynamic :
      String → String → Call
  remove get : String → Call

module _ (C : Collection) (K : Cache Route) where
  -- The store after a call.
  unfoldable pub exec : Store C K → Call → Store C K
  unfolding Routes.add_static_endpoint Routes.update_static_endpoint Routes.add_proxy_endpoint
      Routes.add_dynamic_endpoint Routes.update_dynamic_endpoint
  exec s (add_static p v) = (Routes.add_static_endpoint C K p v s).0
  exec s (update_static p v) = (Routes.update_static_endpoint C K p v s).0
  exec s (add_proxy p v) = (Routes.add_proxy_endpoint C K p v s).0
  exec s (update_proxy p v) = (Routes.update_proxy_endpoint C K p v s).0
  exec s (add_dynamic p v) = (Routes.add_dynamic_endpoint C K p v s).0
  exec s (update_dynamic p v) = (Routes.update_dynamic_endpoint C K p v s).0
  exec s (remove p) = (Routes.remove_route C K p s).0
  exec s (get p) = (Routes.get_route C K p s).0

  unfoldable pub exec_all : Store C K → List Call → Store C K
  exec_all s [] = s
  exec_all s (c ∷ cs) = exec_all (exec s c) cs

abbrev pub IsProxyUpdate : Call → Type 0
IsProxyUpdate (update_proxy p v) = Unit {0}
IsProxyUpdate _ = ⊥

-- The path that a call writes.
abbrev pub call_path : Call → Option String
call_path (add_static p v) = some p
call_path (update_static p v) = some p
call_path (add_proxy p v) = some p
call_path (update_proxy p v) = some p
call_path (add_dynamic p v) = some p
call_path (update_dynamic p v) = some p
call_path (remove p) = some p
call_path (get p) = none

module _ (C : Collection) (K : Cache Route) where
  abbrev pub IsKnown : Store C K × Option Error → Type 0
  IsKnown out = (out.1 ≡ none) ⊎ (out.1 ≡ some no_such_path)

  -- A removal returns no error of the driver, and an update nil or ErrNoSuchPath: it is known whether it was applied.
  abbrev pub IsSettled : Store C K → Call → Type 0
  IsSettled s (update_static p v) = IsKnown (Routes.update_static_endpoint C K p v s)
  IsSettled s (update_dynamic p v) = IsKnown (Routes.update_dynamic_endpoint C K p v s)
  IsSettled s (remove p) = (e : DriverError) → (Routes.remove_route C K p s).1 ≢ some (driver e)
  IsSettled s _ = Unit {0}

  abbrev pub AllSettled : Store C K → List Call → Type 0
  AllSettled s [] = Unit {0}
  AllSettled s (c ∷ cs) = IsSettled s c × AllSettled (exec C K s c) cs

module _ {C : Collection} {K : Cache Route} (L : CollectionLaws C "path") where
  -- `DeleteOne` never returns ErrNoDocuments, so the test for it in the other collections' remove
  -- functions, which routes.go lacks, makes no difference.
  pub remove_route-eq-remove :
      (p : String) (s : Store C K) → Routes.remove_route C K p s ≡ Store.remove C K route_schema p s
  unfolding Routes.remove_route Store.remove
  remove_route-eq-remove p s = elim (Option-cases (C.delete_one "path" p s.coll).1) [
    | inl h ↦ rw h refl
    | inr (no_documents, h) ↦ absurd (L.delete-ne-no_documents p s.coll h)
    | inr (duplicate_write, h) ↦ rw h refl
    | inr (failure t, h) ↦ rw h refl
  ]

module _ {C : Collection} {K : Cache Route} (L : CollectionLaws C "path") (M : CacheLaws K) where
  -- What mongo.go stores: a route stands under its path, has the fields of its type, and no other.
  abbrev pub IsPlain : Route → Type 0
  IsPlain r =
      ((r.kind ≡ static_endpoint_type) × (r.script_name ≡ "") × (r.proxy_url ≡ ""))
      ⊎ ((r.kind ≡ dynamic_endpoint_type) × (r.response ≡ "") × (r.proxy_url ≡ ""))
      ⊎ ((r.kind ≡ proxy_endpoint_type) × (r.script_name ≡ "") × (r.response ≡ ""))

  pub record IsValid (s : Store C K) : Type 0 where
    pub coherent : IsCoherent route_schema L M s
    pub plain : (k : String) (r : Route) → routes L M s k ≡ some r → (r.path ≡ k) × IsPlain r

  pub add-IsValid :
      (r : Route) (s : Store C K) → IsPlain r → IsValid s → IsValid (Routes.add_route C K r s).0
  unfolding Routes.add_route
  add-IsValid r s p v = record {
    coherent = add-IsCoherent route_schema L M route_laws r s v.coherent;
    plain = λ k q h. elim (add-Adds route_schema L M route_laws r s) [
      | inl (_, (_, after)) ↦ ground (arith, after k, eq_iff r.path k, v.plain k q)
      | inr (_, inl after) ↦ v.plain k q (sym (after k) ∙ h)
      | inr (_, inr (_, (_, after))) ↦ ground (arith, after k, eq_iff r.path k, v.plain k q)
    ];
  }

  -- Overwriting a stored route of the same type gives the route that the update was given.
  pub overwritten_of_IsPlain :
      (r : Route) (s : Store C K)
      → IsPlain r
      → r.kind ≢ proxy_endpoint_type
      → IsValid s
      → (old : Route) → routes L M s r.path ≡ some old
      → old.kind ≡ r.kind
      → overwritten L M r old ≡ r
  overwritten_of_IsPlain r s p np v old found kind = ground (arith, v.plain r.path old found)

  pub update-IsValid :
      (r : Route) (s : Store C K)
      → IsPlain r
      → r.kind ≢ proxy_endpoint_type
      → IsKnown C K (Routes.update_route C K r s)
      → IsValid s
      → IsValid (Routes.update_route C K r s).0
  update-IsValid r s p np known v = record {
    coherent = update_route-IsCoherent L M r s known v.coherent (overwritten_of_IsPlain r s p np v);
    plain = λ k q h. elim (update_route-Updates L M r s) [
      | inl (_, _, (old, found, kind, after)) ↦
          ground (arith, after k, eq_iff r.path k, v.plain k q, v.plain r.path old found)
      | inr (_, _, inl after) ↦ v.plain k q (sym (after k) ∙ h)
      | inr (_, _, inr (_, (old, found, kind, after))) ↦
          ground (arith, after k, eq_iff r.path k, v.plain k q, v.plain r.path old found)
    ];
  }

  pub remove-IsValid :
      (p : String) (s : Store C K)
      → ((e : DriverError) → (Routes.remove_route C K p s).1 ≢ some (driver e))
      → IsValid s
      → IsValid (Routes.remove_route C K p s).0
  remove-IsValid p s done v = rw (remove_route-eq-remove {K = K} L p s) (record {
    coherent =
        remove-IsCoherent route_schema L M p s
          (λ e h. done e (ap (λ out. out.1) (remove_route-eq-remove {K = K} L p s) ∙ h)) v.coherent;
    plain = λ k q h. elim (remove-Removes route_schema L M p s) [
      | inl (_, after) ↦ ground (arith, after k, v.plain k q)
      | inr (_, inl after) ↦ v.plain k q (sym (after k) ∙ h)
      | inr (_, inr after) ↦ ground (arith, after k, v.plain k q)
    ];
  })

  pub get-IsValid : (p : String) (s : Store C K) → IsValid s → IsValid (Routes.get_route C K p s).0
  unfolding Routes.get_route Store.get stored
  get-IsValid p s v = record {
    coherent = get-IsCoherent route_schema L M p s v.coherent;
    plain = v.plain;
  }

  exec-IsValid :
      (s : Store C K) (c : Call)
      → ¬ IsProxyUpdate c
      → IsSettled C K s c
      → IsValid s
      → IsValid (exec C K s c)
  unfolding exec Routes.update_static_endpoint Routes.update_dynamic_endpoint
  exec-IsValid s (add_static p t) n k v = add-IsValid _ s (inl (refl, refl, refl)) v
  exec-IsValid s (add_proxy p t) n k v = add-IsValid _ s (inr (inr (refl, refl, refl))) v
  exec-IsValid s (add_dynamic p t) n k v = add-IsValid _ s (inr (inl (refl, refl, refl))) v
  exec-IsValid s (update_static p t) n k v = update-IsValid _ s (inl (refl, refl, refl)) (cc) k v
  exec-IsValid s (update_proxy p t) n k v = absurd (n tt)
  exec-IsValid s (update_dynamic p t) n k v =
      update-IsValid _ s (inr (inl (refl, refl, refl))) (cc) k v
  exec-IsValid s (remove p) n k v = remove-IsValid p s k v
  exec-IsValid s (get p) n k v = get-IsValid p s v

  -- From a store whose cache agrees with its collection and whose routes have the fields of their
  -- type, any calls but updates of proxy endpoints lead to such a store again, whatever entries the
  -- cache drops, if the updates return no errors but ErrNoSuchPath, and
  -- the removals none of the driver.
  pub exec_all-IsValid :
      (s : Store C K) (cs : List Call)
      → All (λ c. ¬ IsProxyUpdate c) cs
      → AllSettled C K s cs
      → IsValid s
      → IsValid (exec_all C K s cs)
  unfolding exec_all
  exec_all-IsValid s [] n k v = v
  exec_all-IsValid s (c ∷ cs) n k v =
      exec_all-IsValid (exec C K s c) cs n.1 k.1 (exec-IsValid s c n.0 k.0 v)

  remove-IsCoherentAt_other :
      (p : String) (s : Store C K) (path : String)
      → p ≢ path
      → IsCoherentAt route_schema L M path s
      → IsCoherentAt route_schema L M path (Routes.remove_route C K p s).0
  remove-IsCoherentAt_other p s path other c =
      rw (remove_route-eq-remove {K = K} L p s)
        (remove-IsCoherentAt route_schema L M p s path (inl other) c)

  exec-IsCoherentAt :
      (s : Store C K) (c : Call) (path : String)
      → call_path c ≢ some path
      → IsCoherentAt route_schema L M path s
      → IsCoherentAt route_schema L M path (exec C K s c)
  unfolding exec Routes.add_route Routes.get_route Routes.update_proxy_endpoint
  exec-IsCoherentAt s (add_static p t) path n c =
      add-IsCoherentAt route_schema L M route_laws (static_route p t) s path c
  exec-IsCoherentAt s (add_proxy p t) path n c =
      add-IsCoherentAt route_schema L M route_laws (proxy_route p t) s path c
  exec-IsCoherentAt s (add_dynamic p t) path n c =
      add-IsCoherentAt route_schema L M route_laws (dynamic_route p t) s path c
  exec-IsCoherentAt s (update_static p t) path n c =
      update_route-IsCoherentAt L M (static_route p t) s path (λ e. n (ap some e)) c
  exec-IsCoherentAt s (update_proxy p t) path n c =
      update_route-IsCoherentAt L M (proxy_route p t) s path (λ e. n (ap some e)) c
  exec-IsCoherentAt s (update_dynamic p t) path n c =
      update_route-IsCoherentAt L M (dynamic_route p t) s path (λ e. n (ap some e)) c
  exec-IsCoherentAt s (remove p) path n c =
      remove-IsCoherentAt_other p s path (λ e. n (ap some e)) c
  exec-IsCoherentAt s (get p) path n c = get-IsCoherentAt route_schema L M p s path c

  -- Calls that write other paths keep the cache true under a path, whatever errors they return.
  pub exec_all-IsCoherentAt :
      (s : Store C K) (cs : List Call) (path : String)
      → All (λ c. call_path c ≢ some path) cs
      → IsCoherentAt route_schema L M path s
      → IsCoherentAt route_schema L M path (exec_all C K s cs)
  unfolding exec_all
  exec_all-IsCoherentAt s [] path n c = c
  exec_all-IsCoherentAt s (d ∷ ds) path n c =
      exec_all-IsCoherentAt (exec C K s d) ds path n.1 (exec-IsCoherentAt s d path n.0 c)

-- ===== src/Database/Routes/Update.antt =====
-- internal/database/routes.go: what updateRoute stores, and when the cache stays true to it.
use mock_server.Prelude.{
  ℕ, zero, suc, ◌≡◌, ◌≢◌, ◌⊎◌, inl, inr, refl, ap, sym, ◌∙◌, String, List, [], ◌∷◌, Option, none,
  some, ◌==◌, if◌then◌else◌, arith, eq_iff,
}
use mathlib.Core.Option
use mock_server.Errors.{DriverError, no_documents, duplicate_write, failure, Error, no_such_path}
use mock_server.Database.Documents.{Doc, Route, field, set_field, set_fields, text, decode_route}
use mock_server.Database.Driver.{Collection, Cache, CollectionLaws, CacheLaws, Matches}
use mock_server.Database.Store.{Store, error_of}
use mock_server.Database.Store.Coherence.{stored, Kept, IsCoherent, IsCoherentAt}
use mock_server.Database.Routes.{route_schema, updated, update_route}

text-set_field :
    (k j v : String) (d : Doc) → text k (set_field j v d) ≡ (if j == k then v else text k d)
unfolding text set_field
text-set_field k j v [] = ground (arith, eq_iff j k)
text-set_field k j v ((i, w) ∷ d) =
    ground (arith, eq_iff j k, eq_iff i k, eq_iff i j, text-set_field k j v d)

-- What `$set` makes of a stored route: the response and the script name are new, and only they.
decode_route-set_fields :
    (response script : String) (d : Doc)
    → decode_route (set_fields (("response", response) ∷ ("script_name", script) ∷ []) d)
      ≡ record (decode_route d) { script_name = script; response = response }
unfolding decode_route set_fields
decode_route-set_fields response script d = simp text-set_field

kind_of_field : (d : Doc) (t : String) → field "type" d ≡ some t → (decode_route d).kind ≡ t
unfolding decode_route
kind_of_field d t h = rw h refl

module _ {C : Collection} {K : Cache Route} (L : CollectionLaws C "path") (M : CacheLaws K) where
  abbrev pub routes : Store C K → String → Option Route
  routes = stored route_schema L M

  abbrev pub overwritten : Route → Route → Route
  overwritten new old = record old { script_name = new.script_name; response = new.response }

  -- The update has been applied to the stored route of this path and type.
  abbrev pub Overwrites : Route → Store C K → Store C K → Type 0
  Overwrites r s s' =
      (old : Route) × (routes s r.path ≡ some old)
      × (old.kind ≡ r.kind)
      × ((j : String)
          → routes s' j ≡ (if r.path == j then some (overwritten r old) else routes s j))

  abbrev pub Updates : Route → Store C K → Store C K × Option Error → Type 0
  Updates r s out =
      ((out.1 ≡ none) × (out.0.cache ≡ (K.set r.path r s.cache).0) × Overwrites r s out.0)
      ⊎ ((out.1 ≢ none)
          × (out.0.cache ≡ s.cache)
          × (Kept route_schema L M s out.0 ⊎ ((out.1 ≢ some no_such_path) × Overwrites r s out.0)))

  -- An update that returns nil has found a route with this path and this type, has changed its
  -- response and script name and nothing else, and has put the given route into the cache; one that
  -- returns ErrNoSuchPath has changed nothing, and one that returns another error has left the
  -- cache as it was and has changed nothing that is stored or done just that.
  pub update_route-Updates : (r : Route) (s : Store C K) → Updates r s (update_route C K r s)
  unfolding update_route stored field
  update_route-Updates r s = go _ _ refl refl
    where
      rest : List (String × String)
      rest = ("type", r.kind) ∷ []

      sets : List (String × String)
      sets = ("response", r.response) ∷ ("script_name", r.script_name) ∷ []

      u : C.State × Option ℕ × Option DriverError
      u = C.update_one (("path", r.path) ∷ rest) sets s.coll

      now : Store C K
      now = record s { coll = u.0 }

      overwrites :
          (t : Store C K)
          → t.coll ≡ u.0
          → (d : Doc) × (L.view s.coll r.path ≡ some d)
            × Matches rest d
            × ((j : String)
                → L.view u.0 j
                  ≡ (if r.path == j then some (set_fields sets d) else L.view s.coll j))
          → Overwrites r s t
      overwrites t same (d, found, (kind, _), after) = (
        decode_route d,
        ap (Option.map decode_route) found,
        kind_of_field d r.kind kind,
        λ j.
            rw (same, after j) (ground (arith, decode_route-set_fields r.response r.script_name d)),
      )

      failed :
          (q : Option Error)
          → q ≢ some no_such_path
          → (u.1 ≡ none) ⊎ (u.2 ≢ none)
          → Kept route_schema L M s now ⊎ ((q ≢ some no_such_path) × Overwrites r s now)
      failed q other h = elim (L.update_failed r.path rest sets s.coll refl h) [
        | inl same ↦ inl (λ j. ap (Option.map decode_route) (same j))
        | inr done ↦ inr (other, overwrites now refl done)
      ]

      unmatched : u.1 ≡ some 0 → Kept route_schema L M s now
      unmatched h j = ap (Option.map decode_route) (L.update_unmatched r.path rest sets s.coll h j)

      go :
          (count : Option ℕ) (e : Option DriverError)
          → u.1 ≡ count
          → u.2 ≡ e
          → Updates r s (updated C K r s u.0 count e)
      go c (some no_documents) p q = absurd (L.update-ne-no_documents r.path rest sets s.coll q)
      go none none p q = inr ((λ h. cc), refl, failed _ (λ h. cc) (inl p))
      go none (some duplicate_write) p q = inr ((λ h. cc), refl, failed _ (λ h. cc) (inl p))
      go none (some (failure t)) p q = inr ((λ h. cc), refl, failed _ (λ h. cc) (inl p))
      go (some zero) none p q = inr ((λ h. cc), refl, inl (unmatched p))
      go (some zero) (some duplicate_write) p q = inr ((λ h. cc), refl, inl (unmatched p))
      go (some zero) (some (failure t)) p q = inr ((λ h. cc), refl, inl (unmatched p))
      go (some (suc n)) (some duplicate_write) p q =
          inr ((λ h. cc), refl, failed _ (λ h. cc) (inr (λ h. cc)))
      go (some (suc n)) (some (failure t)) p q =
          inr ((λ h. cc), refl, failed _ (λ h. cc) (inr (λ h. cc)))
      go (some (suc n)) none p q = inl (
        ap error_of (M.set-eq-none r.path r s.cache),
        refl,
        overwrites (record { coll = u.0; cache = (K.set r.path r s.cache).0 }) refl
            (L.update_matched r.path rest sets s.coll (suc n) refl p q (ground arith)),
      )

  -- An update of another path keeps the cache true under a path.
  pub update_route-IsCoherentAt :
      (r : Route) (s : Store C K) (path : String)
      → r.path ≢ path
      → IsCoherentAt route_schema L M path s
      → IsCoherentAt route_schema L M path (update_route C K r s).0
  update_route-IsCoherentAt r s path other c v g = elim (update_route-Updates r s) [
    | inr (_, kept, inl after) ↦ after path ∙ c v (rw kept at g)
    | inr (_, kept, inr (_, (_, _, _, after))) ↦
        after path ∙ ground (arith, eq_iff r.path path, c v (rw kept at g))
    | inl (_, now, (_, _, _, after)) ↦ elim (M.held-set r.path r s.cache path v (rw now at g)) [
      | inl (here, new) ↦ absurd (other (sym here))
      | inr (there, held) ↦ after path ∙ ground (arith, eq_iff r.path path, c v held)
    ]
  ]

  -- An update that returns nil or ErrNoSuchPath keeps the cache true to the collection if the stored
  -- route of this path and type, once overwritten, is the route that is put into the cache.
  pub update_route-IsCoherent :
      (r : Route) (s : Store C K)
      → ((update_route C K r s).1 ≡ none) ⊎ ((update_route C K r s).1 ≡ some no_such_path)
      → IsCoherent route_schema L M s
      → ((old : Route) → routes s r.path ≡ some old → old.kind ≡ r.kind → overwritten r old ≡ r)
      → IsCoherent route_schema L M (update_route C K r s).0
  update_route-IsCoherent r s known c fits k v g = elim (update_route-Updates r s) [
    | inr (_, kept, inl after) ↦ after k ∙ c k v (rw kept at g)
    | inr (bad, kept, inr (doubtful, _)) ↦ elim known [
      | inl nil ↦ absurd (bad nil)
      | inr missing ↦ absurd (doubtful missing)
    ]
    | inl (_, now, (old, found, kind, after)) ↦
        elim (M.held-set r.path r s.cache k v (rw now at g)) [
          | inl (here, new) ↦ rw (after k) (ground (arith, eq_iff r.path k, fits old found kind))
          | inr (there, held) ↦ rw (after k) (ground (arith, eq_iff r.path k, c k v held))
        ]
  ]

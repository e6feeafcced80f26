-- ===== src/Database/Store/Coherence.antt =====
-- internal/database: what the cached collections store, and that the cache never contradicts them.
use mock_server.Prelude.{
  ◌≡◌, ◌≢◌, ◌⊎◌, inl, inr, refl, ap, sym, ◌∙◌, String, Option, none, some, if◌then◌else◌, arith,
  ◌==◌, eq_iff, Option-cases, Bool-cases,
}
use mathlib.Core.Option
use mock_server.Errors.{
  DriverError, no_documents, duplicate_write, failure, Error, duplicate_key, driver, Result, ok,
  err,
}
use mock_server.Database.Documents.{field}
use mock_server.Database.Driver.{Collection, Cache, CollectionLaws, CacheLaws}
use mock_server.Database.Store.{
  Schema, Store, inserted, deleted, fetched, add, remove, get, load, error_of,
}

pub record SchemaLaws {V : Type 0} (S : Schema V) : Type 0 where
  pub decode-encode : (v : V) → S.decode (S.encode v) ≡ v
  pub field-encode : (v : V) → field S.key (S.encode v) ≡ some (S.id v)

module _ {V : Type 0} {C : Collection} {K : Cache V} (S : Schema V) (L : CollectionLaws C S.key)
    (M : CacheLaws K) where
  -- The abstract content: a finite map from keys to records.
  unfoldable pub stored : Store C K → String → Option V
  stored s k = Option.map S.decode (L.view s.coll k)

  -- What the cache holds under a key is what the collection stores under it.
  abbrev pub IsCoherentAt : String → Store C K → Type 0
  IsCoherentAt k s = (v : V) → M.held s.cache k ≡ some v → stored s k ≡ some v

  -- What the cache holds is what the collection stores.
  abbrev pub IsCoherent : Store C K → Type 0
  IsCoherent s = (k : String) (v : V) → M.held s.cache k ≡ some v → stored s k ≡ some v

  abbrev pub Kept : Store C K → Store C K → Type 0
  Kept s s' = (j : String) → stored s' j ≡ stored s j

  module _ (N : SchemaLaws S) where
    abbrev pub Added : V → Store C K → Store C K → Type 0
    Added v s s' =
        (stored s (S.id v) ≡ none)
        × ((j : String) → stored s' j ≡ (if S.id v == j then some v else stored s j))

    abbrev pub Adds : V → Store C K → Store C K × Option Error → Type 0
    Adds v s r =
        ((r.1 ≡ none) × Added v s r.0)
        ⊎ ((r.1 ≢ none) × (Kept s r.0 ⊎ ((r.1 ≢ some duplicate_key) × Added v s r.0)))

    insert-failed :
        (v : V) (s : Store C K) (e : DriverError)
        → (C.insert_one (S.encode v) s.coll).1 ≡ some e
        → let s' : Store C K = record s { coll = (C.insert_one (S.encode v) s.coll).0 } in
          Kept s s' ⊎ Added v s s'
    unfolding stored
    insert-failed v s e h =
        elim (L.insert_failed (S.encode v) (S.id v) s.coll e (N.field-encode v) h) [
          | inl same ↦ inl (λ j. ap (Option.map S.decode) (same j))
          | inr (free, after) ↦
              inr (
                ap (Option.map S.decode) free,
                λ j. rw (after j) (ground (arith, N.decode-encode v)),
              )
        ]

    -- An addition that returns nil has put the record under a key that was free, and changed
    -- nothing else; one that returns ErrDuplicateKey has changed nothing that is stored, and one
    -- that returns another error has changed nothing or added the record.
    pub add-Adds : (v : V) (s : Store C K) → Adds v s (add C K S v s)
    unfolding add stored
    add-Adds v s = go _ refl
      where
        r : C.State × Option DriverError
        r = C.insert_one (S.encode v) s.coll

        doubtful :
            (e : DriverError)
            → (q : Option Error) → q ≢ some duplicate_key
            → r.1 ≡ some e
            → let s' : Store C K = record s { coll = r.0 } in
              Kept s s' ⊎ ((q ≢ some duplicate_key) × Added v s s')
        doubtful e q other h = elim (insert-failed v s e h) [
          | inl same ↦ inl same
          | inr added ↦ inr (other, added)
        ]

        go : (e : Option DriverError) → r.1 ≡ e → Adds v s (inserted C K S v s r.0 e)
        go none h =
            let (free, after) = L.insert_ok (S.encode v) (S.id v) s.coll (N.field-encode v) h in
            inl (
              ap error_of (M.set-eq-none (S.id v) v s.cache),
              (
                ap (Option.map S.decode) free,
                λ j. rw (after j) (ground (arith, N.decode-encode v)),
              ),
            )
        go (some duplicate_write) h =
            inr ((λ q. cc), inl (λ j. ap (Option.map S.decode) (L.insert_duplicate _ s.coll h j)))
        go (some no_documents) h = inr ((λ q. cc), doubtful no_documents _ (λ q. cc) h)
        go (some (failure t)) h = inr ((λ q. cc), doubtful (failure t) _ (λ q. cc) h)

    -- An addition that is applied has found its key free, so the cache holds nothing under it.
    pub add-IsCoherentAt :
        (v : V) (s : Store C K) (k : String) → IsCoherentAt k s → IsCoherentAt k (add C K S v s).0
    unfolding add stored
    add-IsCoherentAt v s k c = go _ refl
      where
        r : C.State × Option DriverError
        r = C.insert_one (S.encode v) s.coll

        same : (e : DriverError) → r.1 ≡ some e → IsCoherentAt k (record s { coll = r.0 })
        same e h w g = elim (insert-failed v s e h) [
          | inl kept ↦ kept k ∙ c w g
          | inr (free, after) ↦ elim (Bool-cases (S.id v == k)) [
            | inl at ↦
                let here : S.id v ≡ k = (eq_iff (S.id v) k).0 at in
                let free' : stored s k ≡ none = rw here at free in let held' = c w g in cc
            | inr apart ↦ after k ∙ rw apart (c w g)
          ]
        ]

        go : (e : Option DriverError) → r.1 ≡ e → IsCoherentAt k (inserted C K S v s r.0 e).0
        go none h w g =
            let (free, after) = L.insert_ok (S.encode v) (S.id v) s.coll (N.field-encode v) h in
            elim (M.held-set (S.id v) v s.cache k w g) [
              | inl (here, new) ↦
                  rw (after k) (ground (arith, N.decode-encode v, eq_iff (S.id v) k))
              | inr (there, old) ↦ rw (after k) (ground (arith, eq_iff (S.id v) k, c w old))
            ]
        go (some duplicate_write) h w g = same _ h w g
        go (some no_documents) h w g = same _ h w g
        go (some (failure t)) h w g = same _ h w g

    pub add-IsCoherent : (v : V) (s : Store C K) → IsCoherent s → IsCoherent (add C K S v s).0
    add-IsCoherent v s c k = add-IsCoherentAt v s k (c k)

    -- If the cache agrees with the collection, it does so after an addition, whatever that returns.
    -- An addition that returns nil has put the record under a key that was free, and changed
    -- nothing else; one that returns ErrDuplicateKey has changed nothing that is stored, and one
    -- that returns another error has changed nothing or added the record.
    pub add_keeps :
        (v : V) (s : Store C K)
        → IsCoherent s
        → Adds v s (add C K S v s) × IsCoherent (add C K S v s).0
    add_keeps v s c = (add-Adds v s, add-IsCoherent v s c)

  -- Where the database answers, an addition either finds the key free and returns nil, or finds it
  -- taken and returns ErrDuplicateKey.
  pub add_up :
      (N : SchemaLaws S) (v : V) (s : Store C K)
      → L.Up s.coll
      → ((stored s (S.id v) ≡ none) × ((add C K S v s).1 ≡ none))
        ⊎ ((stored s (S.id v) ≢ none) × ((add C K S v s).1 ≡ some duplicate_key))
  unfolding add stored
  add_up N v s up = elim (L.insert_up (S.encode v) (S.id v) s.coll (N.field-encode v) up) [
    | inl (free, e) ↦
        inl (ap (Option.map S.decode) free, rw e (ap error_of (M.set-eq-none (S.id v) v s.cache)))
    | inr (taken, e) ↦ inr ((λ q. taken ((Option.map-eq-none_iff S.decode _).0 q)), rw e)
  ]

  -- Not an error of the driver.
  abbrev pub IsKnown : Option Error → Type 0
  IsKnown q = (e : DriverError) → q ≢ some (driver e)

  abbrev pub Removed : String → Store C K → Store C K → Type 0
  Removed k s s' = (j : String) → stored s' j ≡ (if k == j then none else stored s j)

  abbrev pub Removes : String → Store C K → Store C K × Option Error → Type 0
  Removes k s r = ((r.1 ≡ none) × Removed k s r.0) ⊎ ((r.1 ≢ none) × (Kept s r.0 ⊎ Removed k s r.0))

  delete-failed :
      (k : String) (s : Store C K) (e : DriverError)
      → (C.delete_one S.key k s.coll).1 ≡ some e
      → let s' : Store C K = record s { coll = (C.delete_one S.key k s.coll).0 } in
        Kept s s' ⊎ Removed k s s'
  unfolding stored
  delete-failed k s e h = elim (L.delete_failed k s.coll e h) [
    | inl same ↦ inl (λ j. ap (Option.map S.decode) (same j))
    | inr after ↦ inr (λ j. rw (after j) (ground arith))
  ]

  -- A removal that returns nil has left the key free and changed nothing else, whether or not it
  -- was taken before; one that returns an error has changed nothing that is stored or done just
  -- that.
  pub remove-Removes : (k : String) (s : Store C K) → Removes k s (remove C K S k s)
  unfolding remove stored
  remove-Removes k s = go _ refl
    where
      r : C.State × Option DriverError
      r = C.delete_one S.key k s.coll

      go : (e : Option DriverError) → r.1 ≡ e → Removes k s (deleted C K S k s r.0 e)
      go none h = inl (refl, λ j. rw (L.delete_ok k s.coll h j) (ground arith))
      go (some duplicate_write) h = inr ((λ q. cc), delete-failed k s _ h)
      go (some no_documents) h = inr ((λ q. cc), delete-failed k s _ h)
      go (some (failure t)) h = inr ((λ q. cc), delete-failed k s _ h)

  -- A removal keeps the cache true to the collection under every other key, and under its own if it
  -- returns no error of the driver.
  pub remove-IsCoherentAt :
      (k : String) (s : Store C K) (j : String)
      → (k ≢ j) ⊎ IsKnown (remove C K S k s).1
      → IsCoherentAt j s
      → IsCoherentAt j (remove C K S k s).0
  unfolding remove stored
  remove-IsCoherentAt k s j = go _ refl
    where
      r : C.State × Option DriverError
      r = C.delete_one S.key k s.coll

      same :
          (e : DriverError)
          → r.1 ≡ some e
          → k ≢ j
          → IsCoherentAt j s
          → IsCoherentAt j (record s { coll = r.0 })
      same e h other c w g = elim (delete-failed k s e h) [
        | inl kept ↦ kept j ∙ c w g
        | inr after ↦ after j ∙ ground (arith, eq_iff k j, c w g)
      ]

      go :
          (e : Option DriverError)
          → r.1 ≡ e
          → (k ≢ j) ⊎ IsKnown (deleted C K S k s r.0 e).1
          → IsCoherentAt j s
          → IsCoherentAt j (deleted C K S k s r.0 e).0
      go none h fine c = λ w g.
          let (other, old) = M.held-remove k s.cache j w g in
          rw (L.delete_ok k s.coll h j) (ground (arith, eq_iff k j, c w old))
      go (some duplicate_write) h (inl other) c = same _ h other c
      go (some no_documents) h (inl other) c = same _ h other c
      go (some (failure t)) h (inl other) c = same _ h other c
      go (some duplicate_write) h (inr known) c = absurd (known _ refl)
      go (some no_documents) h (inr known) c = absurd (L.delete-ne-no_documents k s.coll h)
      go (some (failure t)) h (inr known) c = absurd (known _ refl)

  pub remove-IsCoherent :
      (k : String) (s : Store C K)
      → IsKnown (remove C K S k s).1
      → IsCoherent s
      → IsCoherent (remove C K S k s).0
  remove-IsCoherent k s known c j = remove-IsCoherentAt k s j (inr known) (c j)

  -- If the cache agrees with the collection, then after a removal it does so under every other key,
  -- and under the removed key if nil was returned. A removal that returns nil has left the key free
  -- and changed nothing else; one that returns an error has changed nothing that is stored or done
  -- just that.
  pub remove_keeps :
      (k : String) (s : Store C K)
      → IsCoherent s
      → let r = remove C K S k s in
        Removes k s r × ((j : String) → (k ≢ j) ⊎ (r.1 ≡ none) → IsCoherentAt j r.0)
  remove_keeps k s c = (
    remove-Removes k s,
    λ j which.
        remove-IsCoherentAt k s j
          (elim which [
            | inl other ↦ inl other
            | inr nil ↦ inr (λ e h. let bad = sym nil ∙ h in cc)
          ])
          (c j),
  )

  -- What a read returns: the stored record, the error for a missing one if nothing is stored, or an
  -- error of the driver.
  abbrev pub Gets : String → Store C K → Result V → Type 0
  Gets k s r =
      ((v : V) × (r ≡ ok v) × (stored s k ≡ some v))
      ⊎ ((r ≡ err S.missing) × (stored s k ≡ none))
      ⊎ ((e : DriverError) × (r ≡ err (driver e)) × (¬ L.Up s.coll))

  load-Gets :
      (k : String) (s : Store C K) (e : Option DriverError)
      → (load C K S s.coll k).1 ≡ e
      → Gets k s (fetched C K S (load C K S s.coll k).0 e)
  unfolding load stored fetched
  load-Gets k s none h = inl (_, refl, ap (Option.map S.decode) (L.find_one_ok k s.coll h))
  load-Gets k s (some no_documents) h =
      inr (inl (refl, ap (Option.map S.decode) (L.find_one_none k s.coll h)))
  load-Gets k s (some duplicate_write) h =
      inr (inr (duplicate_write, refl, λ up. ground (arith, L.find_one_up k s.coll up)))
  load-Gets k s (some (failure t)) h =
      inr (inr (failure t, refl, λ up. ground (arith, L.find_one_up k s.coll up)))

  -- A read that the cache does not serve returns what the collection stores.
  pub get_evicted-Gets :
      (k : String) (s : Store C K) → M.held s.cache k ≡ none → Gets k s (get C K S k s).1
  unfolding get
  get_evicted-Gets k s e =
      let (value, error) = M.get_loaded (load C K S s.coll) k s.cache e in
      rw (value, error) (load-Gets k s _ refl)

  -- A read asks only for the agreement under its own key.
  pub get_at-Gets : (k : String) (s : Store C K) → IsCoherentAt k s → Gets k s (get C K S k s).1
  unfolding get
  get_at-Gets k s c = elim (Option-cases (M.held s.cache k)) [
    | inl e ↦ get_evicted-Gets k s e
    | inr (v, e) ↦
        let (value, error) = M.get_held (load C K S s.coll) k s.cache v e in
        rw (value, error) (inl (v, refl, c v e))
  ]

  -- Through a cache that agrees with the collection a read returns the stored record, the error for
  -- a missing one if nothing is stored, or, only while the database does not answer, an error of
  -- the driver; whether the cache has the record or has dropped it.
  pub get-Gets : (k : String) (s : Store C K) → IsCoherent s → Gets k s (get C K S k s).1
  get-Gets k s c = get_at-Gets k s (c k)

  pub get-IsCoherentAt :
      (k : String) (s : Store C K) (j : String)
      → IsCoherentAt j s
      → IsCoherentAt j (get C K S k s).0
  unfolding get load stored
  get-IsCoherentAt k s j c w g = elim (M.held-get (load C K S s.coll) k s.cache j w g) [
    | inl old ↦ c w old
    | inr (here, value, found) ↦
        rw here (ap (Option.map S.decode) (L.find_one_ok k s.coll found) ∙ ap some value)
  ]

  pub get-IsCoherent : (k : String) (s : Store C K) → IsCoherent s → IsCoherent (get C K S k s).0
  get-IsCoherent k s c j = get-IsCoherentAt k s j (c j)

-- ===== src/Database/Driver.antt =====
-- What the database package calls and does not implement: a MongoDB collection
-- (go.mongodb.org/mongo-driver) and a cache with a loader (github.com/bluele/gcache). Each is a record
-- of operations; the behaviour that the code relies on is a record of laws over it.
use mock_server.Prelude.{
  ℕ, ◌≡◌, ◌≢◌, ◌⊎◌, String, List, [], ◌∷◌, Option, none, some, ◌==◌, if◌then◌else◌,
}
use mock_server.Errors.{DriverError, no_documents, duplicate_write}
use mock_server.Database.Documents.{Doc, field, set_fields}

-- A collection's methods. A filter lists the fields that a document must have, with their values.
pub record Collection : Type 1 where
  pub State : Type 0
  pub insert_one : Doc → State → State × Option DriverError
  -- `FindOne` with its error: `none` is `nil`
  pub find_one : String → String → State → Doc × Option DriverError
  -- the filter, and the field to sort by
  pub find : List (String × String) → String → State → List Doc × Option DriverError
  pub delete_one : String → String → State → State × Option DriverError
  -- the filter and the fields to set; the count is `res.MatchedCount`, `none` where `res` is nil
  pub update_one :
      List (String × String)
      → List (String × String)
      → State
      → State × Option ℕ × Option DriverError

-- The fields of a filter other than the key.
abbrev pub Matches : List (String × String) → Doc → Type 0
Matches [] d = Unit {0}
Matches ((f, v) ∷ rest) d = (field f d ≡ some v) × Matches rest d

-- The documented behaviour of a collection with a unique index on the field `key`.
pub record CollectionLaws (C : Collection) (key : String) : Type 1 where
  -- the document whose `key` is the given text
  pub view : C.State → String → Option Doc
  -- the server answers
  pub Up : C.State → Type 0
  -- a write that succeeds adds the document under a key that was free
  pub insert_ok :
      (d : Doc) (k : String) (s : C.State)
      → field key d ≡ some k
      → (C.insert_one d s).1 ≡ none
      → (view s k ≡ none)
        × ((j : String) → view (C.insert_one d s).0 j ≡ (if k == j then some d else view s j))
  pub insert_duplicate :
      (d : Doc) (s : C.State)
      → (C.insert_one d s).1 ≡ some duplicate_write
      → (j : String) → view (C.insert_one d s).0 j ≡ view s j
  -- a write that returns another error has been applied or not
  pub insert_failed :
      (d : Doc) (k : String) (s : C.State) (e : DriverError)
      → field key d ≡ some k
      → (C.insert_one d s).1 ≡ some e
      → ((j : String) → view (C.insert_one d s).0 j ≡ view s j)
        ⊎ ((view s k ≡ none)
            × ((j : String) → view (C.insert_one d s).0 j ≡ (if k == j then some d else view s j)))
  pub insert_up :
      (d : Doc) (k : String) (s : C.State)
      → field key d ≡ some k
      → Up s
      → ((view s k ≡ none) × ((C.insert_one d s).1 ≡ none))
        ⊎ ((view s k ≢ none) × ((C.insert_one d s).1 ≡ some duplicate_write))
  -- `FindOne` finds the document, and says ErrNoDocuments only if there is none
  pub find_one_ok :
      (k : String) (s : C.State)
      → (C.find_one key k s).1 ≡ none
      → view s k ≡ some (C.find_one key k s).0
  pub find_one_none :
      (k : String) (s : C.State) → (C.find_one key k s).1 ≡ some no_documents → view s k ≡ none
  pub find_one_up :
      (k : String) (s : C.State)
      → Up s
      → ((C.find_one key k s).1 ≡ none) ⊎ ((C.find_one key k s).1 ≡ some no_documents)
  -- `DeleteOne` says nothing where there was nothing to delete
  pub delete_ok :
      (k : String) (s : C.State)
      → (C.delete_one key k s).1 ≡ none
      → (j : String) → view (C.delete_one key k s).0 j ≡ (if k == j then none else view s j)
  pub delete_failed :
      (k : String) (s : C.State) (e : DriverError)
      → (C.delete_one key k s).1 ≡ some e
      → ((j : String) → view (C.delete_one key k s).0 j ≡ view s j)
        ⊎ ((j : String) → view (C.delete_one key k s).0 j ≡ (if k == j then none else view s j))
  pub delete-ne-no_documents :
      (k : String) (s : C.State) → (C.delete_one key k s).1 ≢ some no_documents
  pub delete_up : (k : String) (s : C.State) → Up s → (C.delete_one key k s).1 ≡ none
  -- `UpdateOne` with a `$set` of other fields than the key changes the one document that it matches,
  -- if there is one
  pub update_matched :
      (k : String) (rest sets : List (String × String)) (s : C.State) (n : ℕ)
      → field key sets ≡ none
      → let (s', count, e) = C.update_one ((key, k) ∷ rest) sets s in
        (count ≡ some n)
        → (e ≡ none)
        → n ≢ 0
        → (d : Doc) × (view s k ≡ some d)
          × Matches rest d
          × ((j : String) → view s' j ≡ (if k == j then some (set_fields sets d) else view s j))
  pub update_unmatched :
      (k : String) (rest sets : List (String × String)) (s : C.State)
      → let (s', count, e) = C.update_one ((key, k) ∷ rest) sets s in
        count ≡ some 0 → (j : String) → view s' j ≡ view s j
  pub update_failed :
      (k : String) (rest sets : List (String × String)) (s : C.State)
      → field key sets ≡ none
      → let (s', count, e) = C.update_one ((key, k) ∷ rest) sets s in
        (count ≡ none) ⊎ (e ≢ none)
        → ((j : String) → view s' j ≡ view s j)
          ⊎ ((d : Doc) × (view s k ≡ some d)
              × Matches rest d
              × ((j : String)
                  → view s' j ≡ (if k == j then some (set_fields sets d) else view s j)))
  pub update-ne-no_documents :
      (k : String) (rest sets : List (String × String)) (s : C.State)
      → (C.update_one ((key, k) ∷ rest) sets s).2 ≢ some no_documents
  pub update_up :
      (k : String) (rest sets : List (String × String)) (s : C.State)
      → Up s
      → let (s', count, e) = C.update_one ((key, k) ∷ rest) sets s in
        (e ≡ none)
        × (((count ≡ some 1) × ((d : Doc) × (view s k ≡ some d) × Matches rest d))
            ⊎ ((count ≡ some 0) × ((d : Doc) → view s k ≡ some d → ¬ Matches rest d)))

-- The cache's methods; `get` is given the loader of the cache.
pub record Cache (V : Type 0) : Type 1 where
  pub State : Type 0
  pub get : (String → V × Option DriverError) → String → State → State × V × Option DriverError
  pub set : String → V → State → State × Option DriverError
  pub remove : String → State → State

-- The documented behaviour of the cache. It may drop any entry at any time, and has no serialiser,
-- so `Set` does not fail.
pub record CacheLaws {V : Type 0} (K : Cache V) : Type 0 where
  pub held : K.State → String → Option V
  pub get_held :
      (load : String → V × Option DriverError) (k : String) (s : K.State) (v : V)
      → held s k ≡ some v
      → ((K.get load k s).1 ≡ v) × ((K.get load k s).2 ≡ none)
  pub get_loaded :
      (load : String → V × Option DriverError) (k : String) (s : K.State)
      → held s k ≡ none
      → ((K.get load k s).1 ≡ (load k).0) × ((K.get load k s).2 ≡ (load k).1)
  pub held-get :
      (load : String → V × Option DriverError) (k : String) (s : K.State) (j : String) (v : V)
      → held (K.get load k s).0 j ≡ some v
      → (held s j ≡ some v) ⊎ ((j ≡ k) × ((load k).0 ≡ v) × ((load k).1 ≡ none))
  pub set-eq-none : (k : String) (v : V) (s : K.State) → (K.set k v s).1 ≡ none
  pub held-set :
      (k : String) (v : V) (s : K.State) (j : String) (w : V)
      → held (K.set k v s).0 j ≡ some w
      → ((j ≡ k) × (w ≡ v)) ⊎ ((j ≢ k) × (held s j ≡ some w))
  pub held-remove :
      (k : String) (s : K.State) (j : String) (w : V)
      → held (K.remove k s) j ≡ some w
      → (j ≢ k) × (held s j ≡ some w)

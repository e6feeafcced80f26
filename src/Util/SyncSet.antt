-- ===== src/Util/SyncSet.antt =====
-- internal/util/sync_set.go: a set under a mutex. Each method holds the mutex throughout, so it is one
-- step. The Go map is the list of its keys, here texts.
use mock_server.Prelude.{
  ◌≡◌, String, Bool, true, false, ◌||◌, List, [], ◌∷◌, ◌==◌, if◌then◌else◌, arith, eq_iff,
}

pub record SyncSet : Type 0 where
  pub buffer : List String

abbrev pub elem : String → List String → Bool
elem k [] = false
elem k (v ∷ vs) = v == k || elem k vs

abbrev pub delete : String → List String → List String
delete k [] = []
delete k (v ∷ vs) = let rest = delete k vs in if v == k then rest else v ∷ rest

abbrev pub contains : String → SyncSet → Bool
contains k s = elem k s.buffer

unfoldable pub insert : String → SyncSet → SyncSet × Bool
insert value s =
    if elem value s.buffer then (s, false) else (record { buffer = value ∷ s.buffer }, true)

unfoldable pub remove : String → SyncSet → SyncSet
remove value s = record { buffer = delete value s.buffer }

unfoldable pub new_sync_set : SyncSet
new_sync_set = record { buffer = [] }

elem-delete :
    (k j : String) (vs : List String) → elem j (delete k vs) ≡ (if k == j then false else elem j vs)
elem-delete k j [] = ground arith
elem-delete k j (v ∷ vs) = ground (arith, elem-delete k j vs, eq_iff v k, eq_iff v j, eq_iff k j)

pub contains-remove :
    (k j : String) (s : SyncSet)
    → contains j (remove k s) ≡ (if k == j then false else contains j s)
unfolding remove
contains-remove k j s = elem-delete k j s.buffer

pub contains-insert :
    (k j : String) (s : SyncSet)
    → contains j (insert k s).0 ≡ (if k == j then true else contains j s)
unfolding insert
contains-insert k j s = ground (arith, eq_iff k j)

pub insert-contains :
    (k : String) (s : SyncSet) → (insert k s).1 ≡ (if contains k s then false else true)
unfolding insert
insert-contains k s = ground arith

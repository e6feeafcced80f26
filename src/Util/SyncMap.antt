-- ===== src/Util/SyncMap.antt =====
-- internal/util/sync_map.go: a map under a lock. Each method holds the lock from its first line to its
-- last, so it is one step. Keys are texts; a Go map walks its keys in some order, here that of the list.
use mock_server.Prelude.{
  ◌≡◌, ◌≢◌, refl, ap, ◌∙◌, inl, inr, String, Bool, true, false, List, [], ◌∷◌, map, Option, none,
  some, ◌==◌, if◌then◌else◌, arith, eq_iff, Bool-cases, Option-cases, ℕ, ◌↔◌,
}
use mock_server.Util.Tally.{tally}

pub record SyncMap (V : Type 0) : Type 0 where
  pub buffer : List (String × V)

module _ {V : Type 0} where
  assign : String → V → List (String × V) → List (String × V)
  assign key value [] = (key, value) ∷ []
  assign key value ((k, v) ∷ kvs) =
      let rest = assign key value kvs in if k == key then (key, value) ∷ kvs else (k, v) ∷ rest

  lookup : String → List (String × V) → Option V
  lookup key [] = none
  lookup key ((k, v) ∷ kvs) = if k == key then some v else lookup key kvs

  delete : String → List (String × V) → List (String × V)
  delete key [] = []
  delete key ((k, v) ∷ kvs) = let rest = delete key kvs in if k == key then kvs else (k, v) ∷ rest

  unfoldable pub new_sync_map : SyncMap V
  new_sync_map = record { buffer = [] }

  unfoldable pub add : String → V → SyncMap V → SyncMap V
  unfolding assign
  add key value mp = record { buffer = assign key value mp.buffer }

  -- `none` is the pair of the zero value and false.
  unfoldable pub get : String → SyncMap V → Option V
  unfolding lookup
  get key mp = lookup key mp.buffer

  unfoldable pub remove : String → SyncMap V → SyncMap V
  unfolding delete
  remove key mp = record { buffer = delete key mp.buffer }

  unfoldable pub contains : String → SyncMap V → Bool
  unfolding lookup
  contains key mp = elim (lookup key mp.buffer) [ none ↦ false | some v ↦ true ]

  unfoldable pub get_all_keys : SyncMap V → List String
  get_all_keys mp = map (λ kv. kv.0) mp.buffer

pub data Op (V : Type 0) : Type 0 where
  add_op : String → V → Op V
  remove_op : String → Op V

module _ {V : Type 0} where
  unfoldable pub apply : Op V → SyncMap V → SyncMap V
  apply (add_op k v) mp = add k v mp
  apply (remove_op k) mp = remove k mp

  -- The operations, the last one first.
  unfoldable pub run : List (Op V) → SyncMap V
  run [] = new_sync_map
  run (op ∷ ops) = apply op (run ops)

  -- What the last operation on the key has left.
  abbrev pub last_written : String → List (Op V) → Option V
  last_written key [] = none
  last_written key (add_op k v ∷ ops) = if k == key then some v else last_written key ops
  last_written key (remove_op k ∷ ops) = if k == key then none else last_written key ops

  abbrev occurs : String → List (String × V) → Bool
  occurs key kvs = elim (lookup key kvs) [ none ↦ false | some v ↦ true ]

  -- Each key stands once.
  abbrev IsMap : List (String × V) → Type 0
  IsMap [] = Unit {0}
  IsMap ((k, v) ∷ kvs) = (lookup k kvs ≡ none) × IsMap kvs

  lookup-assign :
      (key k : String) (v : V) (kvs : List (String × V))
      → lookup key (assign k v kvs) ≡ (if k == key then some v else lookup key kvs)
  unfolding lookup assign
  lookup-assign key k v [] = refl
  lookup-assign key k v ((j, w) ∷ kvs) =
      ground (arith, eq_iff j k, eq_iff k key, eq_iff j key, lookup-assign key k v kvs)

  lookup-delete :
      (key k : String) (kvs : List (String × V))
      → IsMap kvs
      → lookup key (delete k kvs) ≡ (if k == key then none else lookup key kvs)
  unfolding lookup delete
  lookup-delete key k [] h = ground arith
  lookup-delete key k ((j, w) ∷ kvs) (free, h) =
      ground (arith, eq_iff j k, eq_iff k key, eq_iff j key, lookup-delete key k kvs h)

  assign-IsMap : (k : String) (v : V) (kvs : List (String × V)) → IsMap kvs → IsMap (assign k v kvs)
  unfolding lookup assign
  assign-IsMap k v [] h = (refl, tt)
  assign-IsMap k v ((j, w) ∷ kvs) (free, h) = elim (Bool-cases (j == k)) [
    | inl e ↦ rw e (ground (arith, eq_iff j k, free), h)
    | inr e ↦ rw e (
      ground (arith, lookup-assign j k v kvs, eq_iff j k, eq_iff k j, free),
      assign-IsMap k v kvs h,
    )
  ]

  delete-IsMap : (k : String) (kvs : List (String × V)) → IsMap kvs → IsMap (delete k kvs)
  unfolding lookup delete
  delete-IsMap k [] h = tt
  delete-IsMap k ((j, w) ∷ kvs) (free, h) = elim (Bool-cases (j == k)) [
    | inl e ↦ rw e h
    | inr e ↦ rw e (ground (arith, lookup-delete j k kvs h, free), delete-IsMap k kvs h)
  ]

  run-IsMap : (ops : List (Op V)) → IsMap (run ops).buffer
  unfolding run new_sync_map apply add remove
  run-IsMap [] = tt
  run-IsMap (add_op k v ∷ ops) = assign-IsMap k v (run ops).buffer (run-IsMap ops)
  run-IsMap (remove_op k ∷ ops) = delete-IsMap k (run ops).buffer (run-IsMap ops)

  get-run : (key : String) (ops : List (Op V)) → get key (run ops) ≡ last_written key ops
  unfolding run new_sync_map apply add remove get lookup
  get-run key [] = refl
  get-run key (add_op k v ∷ ops) = rw (lookup-assign key k v (run ops).buffer, get-run key ops) refl
  get-run key (remove_op k ∷ ops) =
      rw (lookup-delete key k (run ops).buffer (run-IsMap ops), get-run key ops) refl

  abbrev pub count_of : Option V → ℕ
  count_of none = 0
  count_of (some v) = 1

  keys-lookup :
      (key : String) (kvs : List (String × V))
      → IsMap kvs
      → tally (λ k. k == key) (map (λ kv. kv.0) kvs) ≡ count_of (lookup key kvs)
  unfolding lookup
  keys-lookup key [] h = refl
  keys-lookup key ((j, w) ∷ kvs) (free, h) =
      ground (arith, keys-lookup key kvs h, eq_iff j key, free)

  -- What a lookup, the keys and Contains give after any operations is what the last of them on the key has
  -- left.
  pub run-last_written :
      (key : String) (ops : List (Op V))
      → (get key (run ops) ≡ last_written key ops)
        × (tally (λ k. k == key) (get_all_keys (run ops)) ≡ count_of (last_written key ops))
        × ((contains key (run ops) ≡ true) ↔ (last_written key ops ≢ none))
  unfolding get_all_keys contains get
  run-last_written key ops =
      let same = get-run key ops in
      (
        same,
        keys-lookup key (run ops).buffer (run-IsMap ops) ∙ ap count_of same,
        rw (same, contains)
            (elim (Option-cases (last_written key ops)) [
              | inl e ↦ rw e ((λ h. cc), λ n. absurd (n refl))
              | inr (v, e) ↦ rw e ((λ h q. cc), λ n. refl)
            ]),
      )

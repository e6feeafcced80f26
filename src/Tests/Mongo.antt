-- ===== src/Tests/Mongo.antt =====
-- A collection with a unique index on the path, as a function from paths to documents; a cache that
-- keeps every entry; and stores over them.
use mock_server.Prelude.{
  ℕ, ◌≡◌, refl, inl, inr, String, Bool, true, false, List, [], ◌∷◌, Option, none, some, ◌==◌, ◌&&◌,
  if◌then◌else◌, arith, eq_iff, eq_refl, Option-cases, Bool-cases,
}
use mock_server.Errors.{DriverError, no_documents, duplicate_write, failure}
use mock_server.Database.Documents.{Doc, Route, field, set_fields}
use mock_server.Database.Driver.{Collection, CollectionLaws, Cache, CacheLaws, Matches}
use mock_server.Database.Store.{Store}

abbrev pub Docs : Type 0
Docs = String → Option Doc

abbrev pub put_doc : String → Doc → Docs → Docs
put_doc k d s j = if k == j then some d else s j

abbrev pub option_eq : Option String → String → Bool
option_eq none v = false
option_eq (some w) v = w == v

abbrev pub fits : List (String × String) → Doc → Bool
fits [] d = true
fits ((f, v) ∷ rest) d = option_eq (field f d) v && fits rest d

abbrev insert_under : Option String → Doc → Docs → Docs × Option DriverError
insert_under none d s = (s, some (failure "no path"))
insert_under (some k) d s = elim (s k) [
  | none ↦ (put_doc k d s, none)
  | some _ ↦ (s, some duplicate_write)
]

abbrev found : Option Doc → Doc × Option DriverError
found none = ([], some no_documents)
found (some d) = (d, none)

abbrev set_if :
    Bool → String → List (String × String) → Doc → Docs → Docs × Option ℕ × Option DriverError
set_if false k sets d s = (s, some 0, none)
set_if true k sets d s = (put_doc k (set_fields sets d) s, some 1, none)

abbrev update_found :
    Option Doc
    → String
    → List (String × String)
    → List (String × String)
    → Docs
    → Docs × Option ℕ × Option DriverError
update_found none k rest sets s = (s, some 0, none)
update_found (some d) k rest sets s = set_if (fits rest d) k sets d s

abbrev update_in :
    List (String × String) → List (String × String) → Docs → Docs × Option ℕ × Option DriverError
update_in [] sets s = (s, none, some (failure "no filter"))
update_in ((f, k) ∷ rest) sets s = update_found (s k) k rest sets s

abbrev pub keyed : String → Collection
keyed key = record {
  State = Docs;
  insert_one = λ d s. insert_under (field key d) d s;
  find_one = λ f k s. found (s k);
  find = λ filter sort s. ([], none);
  delete_one = λ f k s. (λ j. if k == j then none else s j, none);
  update_one = update_in;
}

pub fits-Matches : (rest : List (String × String)) (d : Doc) → fits rest d ≡ true → Matches rest d
fits-Matches [] d h = tt
fits-Matches ((f, v) ∷ rest) d h = elim (Option-cases (field f d)) [
  | inl e ↦ ground (arith)
  | inr (w, e) ↦ (ground (arith, eq_iff w v), fits-Matches rest d (ground arith))
]

pub Matches-fits : (rest : List (String × String)) (d : Doc) → Matches rest d → fits rest d ≡ true
Matches-fits [] d h = refl
Matches-fits ((f, v) ∷ rest) d (h, more) = rw (h, eq_refl v, Matches-fits rest d more) refl

unfoldable pub keyed_laws : (key : String) → CollectionLaws (keyed key) key
keyed_laws key = record {
  view = λ s. s;
  Up = λ _. Unit;
  insert_ok = λ d k s named h. (ground arith, λ j. ground arith);
  insert_duplicate = λ d s h j. ground arith;
  insert_failed = λ d k s e named h. inl (λ j. ground arith);
  insert_up = λ d k s named up. ground arith;
  find_one_ok = λ k s h. ground arith;
  find_one_none = λ k s h. ground arith;
  find_one_up = λ k s up. ground arith;
  delete_ok = λ k s h j. refl;
  delete_failed = λ k s e h. inl (λ j. ground arith);
  delete-ne-no_documents = λ k s h. ground arith;
  delete_up = λ k s up. refl;
  update_matched = λ k rest sets s n names c e nz. elim (Option-cases (s k)) [
    | inl gone ↦ ground arith
    | inr (d, here) ↦ (d, here, fits-Matches rest d (ground arith), λ j. ground arith)
  ];
  update_unmatched = λ k rest sets s h j. ground arith;
  update_failed = λ k rest sets s names h. inl (λ j. ground arith);
  update-ne-no_documents = λ k rest sets s h. ground arith;
  update_up = λ k rest sets s up. elim (Option-cases (s k)) [
    | inl gone ↦ (ground arith, inr (ground arith, λ d e. ground arith))
    | inr (d, here) ↦ elim (Bool-cases (fits rest d)) [
      | inl fit ↦ (ground arith, inl (ground arith, (d, here, fits-Matches rest d fit)))
      | inr unfit ↦
          (ground arith, inr (ground arith, λ e same m. ground (arith, Matches-fits rest e m)))
    ]
  ];
}

abbrev pub mongo : Collection
mongo = keyed "path"

unfoldable pub mongo_laws : CollectionLaws mongo "path"
unfolding keyed_laws
mongo_laws = keyed_laws "path"

abbrev pub Entries : Type 0 → Type 0
Entries V = String → Option V

abbrev pub loaded :
    {V : Type 0} → Option DriverError → String → V → Entries V → Entries V × V × Option DriverError
loaded none k v s = (λ j. if k == j then some v else s j, v, none)
loaded (some e) k v s = (s, v, some e)

abbrev pub held_or_loaded :
    {V : Type 0}
    → Option V
    → (String → V × Option DriverError)
    → String
    → Entries V
    → Entries V × V × Option DriverError
held_or_loaded (some v) load k s = (s, v, none)
held_or_loaded none load k s = loaded (load k).1 k (load k).0 s

abbrev pub caching : (V : Type 0) → Cache V
caching V = record {
  State = Entries V;
  get = λ load k s. held_or_loaded (s k) load k s;
  set = λ k v s. (λ j. if k == j then some v else s j, none);
  remove = λ k s j. if k == j then none else s j;
}

unfoldable pub caching_laws : (V : Type 0) → CacheLaws (caching V)
caching_laws V = record {
  held = λ s. s;
  get_held = λ load k s v h. ground arith;
  get_loaded = λ load k s h. elim (Option-cases (load k).1) [
    | inl e ↦ ground arith
    | inr (d, e) ↦ ground arith
  ];
  held-get = λ load k s j v h. elim (Option-cases (s k)) [
    | inl e ↦ ground (arith, eq_iff k j)
    | inr (w, e) ↦ inl (ground arith)
  ];
  set-eq-none = λ k v s. refl;
  held-set = λ k v s j w h. ground (arith, eq_iff k j);
  held-remove = λ k s j w h. ground (arith, eq_iff k j);
}

abbrev pub gcache : Cache Route
gcache = caching Route

unfoldable pub gcache_laws : CacheLaws gcache
unfolding caching_laws
gcache_laws = caching_laws Route

abbrev pub Routes : Type 0
Routes = Store mongo gcache

abbrev pub empty_store : Routes
empty_store = record { coll = λ _. none; cache = λ _. none }

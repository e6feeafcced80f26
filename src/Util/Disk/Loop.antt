-- ===== src/Util/Disk/Loop.antt =====
-- internal/util/file_storage.go: the end of the loop of writes, and what the file then holds.
use mock_server.Prelude.{
  ℕ, zero, suc, ◌+◌, ◌≤◌, ◌<◌, ◌≡◌, refl, ap, subst, sym, ◌∙◌, String, [], ◌∷◌, Option, none, some,
  ltb, arith, Option-cases, Bool-cases, inl, inr,
}
use mock_server.Errors.{Error, Result, ok, err}
use mock_server.Util.Text.{◌^◌, join_path}
use mock_server.Util.TextPieces.{
  size, drop_text, take_text, size-drop_text, take_text_all, take_text-append, join_path-join_path,
}
use mock_server.Util.Disk.{
  Os, write_loop, write_created, write_in, write, read, returned, file_storage,
}
use mock_server.Server.Files.{FileStorageLaws}

-- A created file is empty, and a Write that returns nil has appended a part of the text, more than
-- nothing if the text is not empty. It may be a shorter part than the package documents.
pub record OsLaws (O : Os) : Type 0 where
  pub contents : O.State → String → Option String
  pub path_of : O.File → String
  pub create_ok :
      (path : String) (s : O.State) (file : O.File)
      → (O.create path s).1 ≡ ok file
      → (path_of file ≡ path) × (contents (O.create path s).0 path ≡ some "")
  pub write_ok :
      (file : O.File) (bytes before : String) (s : O.State)
      → let (s', n, e) = O.write_file file bytes s in
        contents s (path_of file) ≡ some before
        → 0 < size bytes
        → e ≡ none
        → (0 < n)
          × (n ≤ size bytes)
          × (contents s' (path_of file) ≡ some (before ^ take_text n bytes))
  pub read_ok :
      (path text : String) (s : O.State)
      → contents s path ≡ some text
      → O.read_file path s ≡ ok text

module _ {O : Os} (L : OsLaws O) where
  -- The loop has ended, and if it returns nil, the file holds the data.
  abbrev pub Ends : O.File → String → O.State × Option (Option Error) → Type 0
  Ends file bytes p =
      (e : Option Error) × (p.1 ≡ some e)
      × (e ≡ none → L.contents p.0 (L.path_of file) ≡ some bytes)

  write_loop-Ends :
      (fuel : ℕ) (file : O.File) (bytes : String) (cnt : ℕ) (s : O.State)
      → size bytes < fuel + cnt
      → cnt ≤ size bytes
      → L.contents s (L.path_of file) ≡ some (take_text cnt bytes)
      → Ends file bytes (write_loop O fuel file bytes cnt s)
  unfolding write_loop
  write_loop-Ends zero file bytes cnt s enough within held = absurd (omega arith)
  write_loop-Ends (suc fuel) file bytes cnt s enough within held =
      elim (Bool-cases (ltb cnt (size bytes))) [
        | inr h ↦
            rw (write_loop, h)
              (none, refl, λ _. held ∙ ap some (take_text_all cnt bytes (ground arith)))
        | inl h ↦ elim (Option-cases (O.write_file file (drop_text cnt bytes) s).2) [
          | inr (e, bad) ↦ rw (write_loop, h, bad) (some e, refl, λ nil. cc)
          | inl fine ↦
              let left = size-drop_text cnt bytes in
              let (more, few, after) =
                L.write_ok file (drop_text cnt bytes) _ s held (ground (arith, left)) fine in
              rw (write_loop, h, fine)
                (write_loop-Ends fuel file bytes _ _ (omega arith) (ground (arith, left))
                  (after ∙ ap some (take_text-append cnt _ bytes)))
        ]
      ]

  -- The same of Write: if it fails before the loop, it returns the error.
  abbrev pub Stores : String → String → O.State × Option (Option Error) → Type 0
  Stores path bytes p =
      (e : Option Error) × (p.1 ≡ some e) × (e ≡ none → L.contents p.0 path ≡ some bytes)

  write_created-Stores :
      (path bytes : String) (s : O.State) (q : O.State × Result O.File)
      → O.create path s ≡ q
      → Stores path bytes (write_created O (suc (size bytes)) bytes q)
  unfolding write_created
  write_created-Stores path bytes s (s', err e) made = (some e, refl, λ nil. cc)
  write_created-Stores path bytes s (s', ok file) made =
      let (here, empty) = L.create_ok path s file (ap (λ p. p.1) made) in
      let held : L.contents s' (L.path_of file) ≡ some "" =
        ap (L.contents s') here ∙ rw made at empty in
      let (e, ended, wrote) =
        write_loop-Ends (suc (size bytes)) file bytes 0 s' (omega arith) (omega arith) held in
      (e, ended, λ nil. sym (ap (L.contents _) here) ∙ wrote nil)

  write_in-Stores :
      (folder filename bytes : String) (p : O.State × Option Error)
      → Stores
          (join_path (folder ∷ filename ∷ []))
          bytes
          (write_in O (suc (size bytes)) folder filename bytes p)
  unfolding write_in
  write_in-Stores folder filename bytes (s, some e) = (some e, refl, λ nil. cc)
  write_in-Stores folder filename bytes (s, none) = write_created-Stores _ bytes s _ refl

  -- With one more round of fuel than the data has bytes the loop of Write ends, however short the
  -- parts are that the file takes at a time, if none is empty; and if Write returns nil, the file
  -- holds the data.
  pub write-Stores :
      (prefix folder filename bytes : String) (s : O.State)
      → Stores
          (join_path (join_path (prefix ∷ folder ∷ []) ∷ filename ∷ []))
          bytes
          (write O (suc (size bytes)) prefix folder filename bytes s)
  unfolding write
  write-Stores prefix folder filename bytes s =
      write_in-Stores (join_path (prefix ∷ folder ∷ [])) filename bytes _

  returned_nil :
      (p : O.State × Option (Option Error)) (e : Option Error)
      → p.1 ≡ some e
      → (returned O p).1 ≡ none
      → (e ≡ none) × ((returned O p).0 ≡ p.0)
  unfolding returned
  returned_nil (s, none) e ended nil = cc
  returned_nil (s, some x) e ended nil = (cc, refl)

  write_nil :
      (path bytes : String) (p : O.State × Option (Option Error))
      → Stores path bytes p
      → (returned O p).1 ≡ none
      → L.contents (returned O p).0 path ≡ some bytes
  write_nil path bytes p (e, ended, stored) nil =
      let (fine, same) = returned_nil p e ended nil in
      ap (λ s. L.contents s path) same ∙ stored fine

  -- The storage keeps what its clients rely on.
  pub file_storage_laws : (prefix : String) → FileStorageLaws (file_storage O prefix)
  unfolding read
  file_storage_laws prefix = record {
    contents = λ s folder filename. L.contents s (join_path (prefix ∷ folder ∷ filename ∷ []));
    read_contents = λ folder filename text s here. L.read_ok _ text s here;
    write_contents = λ folder filename bytes s nil.
        subst
          (λ path.
            L.contents ((file_storage O prefix).write folder filename bytes s).0 path ≡ some bytes)
          (join_path-join_path prefix folder filename)
          (write_nil _ bytes _ (write-Stores prefix folder filename bytes s) nil);
  }

-- ===== src/Util/Disk.antt =====
-- internal/util/file_storage.go and project_root.go: the storage on the file system, with its loop of
-- writes on fuel.
pub mod Loop
use mock_server.Prelude.{
  ℕ, zero, suc, ◌+◌, String, Bool, true, false, List, [], ◌∷◌, Option, none, some, ltb,
  if◌then◌else◌,
}
use mock_server.Errors.{Error, panicked, Result, ok, err}
use mock_server.Util.Text.{join_path}
use mock_server.Util.TextPieces.{size, drop_text}
use mock_server.Server.Files.{FileStorage}

-- The packages os, os/exec and path/filepath. `write_file` is the method Write of an open file, with
-- its count; `is_missing` is whether Stat says ErrNotExist.
pub record Os : Type 1 where
  pub State : Type 0
  pub File : Type 0
  pub working_directory : Option String  -- LookupEnv
  pub go_env_gomod : Result String
  pub path_dir : String → String
  pub abs : String → Result String
  pub is_missing : String → State → Bool
  pub mkdir_all : String → State → State × Option Error
  pub create : String → State → State × Result File
  pub write_file : File → String → State → State × ℕ × Option Error
  pub read_file : String → State → Result String

module _ (O : Os) where
  unfoldable pub get_project_root : Result String
  get_project_root = elim O.working_directory [
    | some dir ↦ ok (O.path_dir dir)
    | none ↦ elim O.go_env_gomod [ err e ↦ err e | ok stdout ↦ ok (O.path_dir stdout) ]
  ]

  unfoldable pub create_if_not_exists : String → O.State → O.State × Option Error
  create_if_not_exists path s = if O.is_missing path s then O.mkdir_all path s else (s, none)

  abs_of : String → O.State × Option Error → O.State × Result String
  abs_of storage_root (s, some e) = (s, err e)
  abs_of storage_root (s, none) = (s, O.abs storage_root)

  unfoldable pub file_storage_root : O.State → O.State × Result String
  unfolding abs_of
  file_storage_root s = elim get_project_root [
    | err e ↦ (s, err e)
    | ok root ↦
        let storage_root = join_path (root ∷ ".storage" ∷ []) in
        abs_of storage_root (create_if_not_exists storage_root s)
  ]

  driver_at : String → O.State × Option Error → O.State × Result String
  driver_at root (s, some e) = (s, err e)
  driver_at root (s, none) = (s, ok root)

  driver_under : String → O.State × Result String → O.State × Result String
  unfolding driver_at
  driver_under folder (s, err e) = (s, err e)
  driver_under folder (s, ok storage_root) =
      let root = join_path (storage_root ∷ folder ∷ []) in
      driver_at root (create_if_not_exists root s)

  -- NewFileStorageDriver, with the prefix of the storage that it returns.
  unfoldable pub new_file_storage_driver : String → O.State → O.State × Result String
  unfolding driver_under
  new_file_storage_driver folder s = driver_under folder (file_storage_root s)

  unfoldable pub read : String → String → String → O.State → Result String
  read prefix folder filename s = O.read_file (join_path (prefix ∷ folder ∷ filename ∷ [])) s

  -- The loop; the result is `none` if the fuel ends before it.
  unfoldable pub write_loop : ℕ → O.File → String → ℕ → O.State → O.State × Option (Option Error)
  write_loop zero file bytes cnt s = (s, none)
  write_loop (suc fuel) file bytes cnt s =
      if ltb cnt (size bytes)
      then (let (s', n, e) = O.write_file file (drop_text cnt bytes) s in
          elim e [
            | some failure ↦ (s', some (some failure))
            | none ↦ write_loop fuel file bytes (cnt + n) s'
          ])
      else (s, some none)

  write_created : ℕ → String → O.State × Result O.File → O.State × Option (Option Error)
  write_created fuel bytes (s, err e) = (s, some (some e))
  write_created fuel bytes (s, ok file) = write_loop fuel file bytes 0 s

  write_in : ℕ → String → String → String → O.State × Option Error → O.State × Option (Option Error)
  unfolding write_created
  write_in fuel folder filename bytes (s, some e) = (s, some (some e))
  write_in fuel folder filename bytes (s, none) =
      write_created fuel bytes (O.create (join_path (folder ∷ filename ∷ [])) s)

  unfoldable pub write :
      ℕ → String → String → String → String → O.State → O.State × Option (Option Error)
  unfolding write_in
  write fuel prefix folder filename bytes s =
      let root = join_path (prefix ∷ folder ∷ []) in
      write_in fuel root filename bytes (create_if_not_exists root s)

  -- What Write returns; there is always enough fuel.
  unfoldable pub returned : O.State × Option (Option Error) → O.State × Option Error
  returned (s, some e) = (s, e)
  returned (s, none) = (s, some panicked)

  -- The storage as its clients see it: a write of n bytes has fuel for n + 1 rounds.
  abbrev pub file_storage : String → FileStorage
  file_storage prefix = record {
    State = O.State;
    read = read prefix;
    write = λ folder filename bytes s.
        returned (write (suc (size bytes)) prefix folder filename bytes s);
  }

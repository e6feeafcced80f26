-- ===== src/Tests/Disk.antt =====
-- internal/util/file_storage.go on a disk that is a function from paths to texts, and writes at most
-- three characters at a time.
use mock_server.Prelude.{
  ℕ, suc, refl, String, false, ◌==◌, if◌then◌else◌, Option, none, some, leb, arith, eq_refl,
}
use mock_server.Errors.{Error, Result, ok, err, failed}
use mock_server.Util.Text.{◌^◌}
use mock_server.Util.TextPieces.{size, take_text}
use mock_server.Util.Disk.{Os, write}
use mock_server.Util.Disk.Loop.{OsLaws, Stores, write-Stores}

abbrev Files : Type 0
Files = String → Option String

abbrev put_file : String → String → Files → Files
put_file path t s p = if p == path then some t else s p

abbrev appended : String → ℕ → String → Option String → Files → Files × ℕ × Option Error
appended path n bytes none s = (s, 0, some (failed "closed"))
appended path n bytes (some before) s = (put_file path (before ^ take_text n bytes) s, n, none)

abbrev at_most_three : ℕ → ℕ
at_most_three n = if leb n 3 then n else 3

abbrev found : Option String → Result String
found none = err (failed "no such file")
found (some t) = ok t

abbrev os : Os
os = record {
  State = Files;
  File = String;
  working_directory = some "/src/cmd";
  go_env_gomod = err (failed "no go");
  path_dir = λ p. "/src";
  abs = λ p. ok p;
  is_missing = λ p s. false;
  mkdir_all = λ p s. (s, none);
  create = λ p s. (put_file p "" s, ok p);
  write_file = λ p bytes s. appended p (at_most_three (size bytes)) bytes (s p) s;
  read_file = λ p s. found (s p);
}

os_laws : OsLaws os
os_laws = record {
  contents = λ s p. s p;
  path_of = λ p. p;
  create_ok = λ p s file made. (cc, rw (eq_refl p) refl);
  write_ok = λ p bytes before s held some_left fine.
      rw (held, eq_refl p) (ground arith, ground arith, refl);
  read_ok = λ p t s held. rw held refl;
}

write-Stores_example :
    Stores os_laws "/src/.storage/coderun/dyn_handle/script_1.py" "print(1)"
      (write os (suc 8) "/src/.storage/coderun" "dyn_handle" "script_1.py" "print(1)" (λ p. none))
unfolding mock_server.Util.Text.join_path
write-Stores_example =
    write-Stores os_laws "/src/.storage/coderun" "dyn_handle" "script_1.py" "print(1)" (λ p. none)

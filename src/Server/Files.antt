-- ===== src/Server/Files.antt =====
-- internal/util/file_storage.go as its clients see it: Read, Write and GenUniqueFilename.
use text.Mathlib.TextLemmas.{cons-append, cons≢nil}
use mock_server.Prelude.{◌≡◌, ◌≢◌, sym, ◌∙◌, String, Option, none, some}
use mock_server.Errors.{Error, Result, ok}
use mock_server.Util.Text.{◌^◌}

-- A storage that is rooted at the driver's prefix; the arguments are the folder and the file name.
pub record FileStorage : Type 1 where
  pub State : Type 0
  pub read : String → String → State → Result String
  pub write : String → String → String → State → State × Option Error

-- What a storage promises: a write that returns nil replaces the file, and a file that is
-- there can be read.
pub record FileStorageLaws (F : FileStorage) : Type 0 where
  pub contents : F.State → String → String → Option String
  pub read_contents :
      (folder name text : String) (s : F.State)
      → contents s folder name ≡ some text
      → F.read folder name s ≡ ok text
  pub write_contents :
      (folder name text : String) (s : F.State)
      → (F.write folder name text s).1 ≡ none
      → contents (F.write folder name text s).0 folder name ≡ some text

-- `stamp` is `time.Now().Format("20060102150405")`, which counts seconds.
unfoldable pub gen_unique_filename : String → String → String
gen_unique_filename stamp ext = "script_" ^ stamp ^ "." ^ ext

pub gen_unique_filename-ne-empty : (stamp ext : String) → gen_unique_filename stamp ext ≢ ""
unfolding gen_unique_filename
gen_unique_filename-ne-empty stamp ext e =
    cons≢nil (sym (cons-append "s" "cript_" (stamp ^ "." ^ ext)) ∙ e)

-- ===== src/Coderun/Script.antt =====
-- internal/coderun/worker/main.go and internal/coderun/scripts/runner.go: the process in a worker's
-- container, which takes a request for a script and runs Python on it.
pub mod Delivery
pub mod Main
use Prim.Native.Char.{Char, code}
use Prim.Native.String
use mock_server.Prelude.{
  ℕ, ◌+◌, String, Bool, true, false, ◌&&◌, ◌||◌, List, [], ◌∷◌, Option, none, some, ◌==◌, leb,
  nat_eq, if◌then◌else◌,
}
use mock_server.Util.Text.{◌^◌, join_path}
use mock_server.Server.Http.{status_ok, status_bad_request}

-- Texts, as Go's `strings` reads them.

fold_code : ℕ → ℕ
fold_code n = if leb 65 n && leb n 90 then n + 32 else n

-- `strings.EqualFold`, on the letters of ASCII
unfoldable pub equal_fold : String → String → Bool
unfolding fold_code
equal_fold String.[] String.[] = true
equal_fold (String.◌∷◌ c s) String.[] = false
equal_fold String.[] (String.◌∷◌ d t) = false
equal_fold (String.◌∷◌ c s) (String.◌∷◌ d t) =
    nat_eq (fold_code (code c)) (fold_code (code d)) && equal_fold s t

-- `unicode.IsSpace`
is_space : Char → Bool
is_space c =
    let n = code c in
    (leb 9 n && leb n 13)
    || nat_eq n 32
    || nat_eq n 0x85
    || nat_eq n 0xa0
    || nat_eq n 0x1680
    || (leb 0x2000 n && leb n 0x200a)
    || nat_eq n 0x2028
    || nat_eq n 0x2029
    || nat_eq n 0x202f
    || nat_eq n 0x205f
    || nat_eq n 0x3000

trim_start : String → String
unfolding is_space
trim_start String.[] = ""
trim_start (String.◌∷◌ c s) = if is_space c then trim_start s else String.◌∷◌ c s

kept_end : Char → String → String
unfolding is_space
kept_end c String.[] = if is_space c then "" else String.◌∷◌ c ""
kept_end c (String.◌∷◌ d s) = String.◌∷◌ c (String.◌∷◌ d s)

trim_end : String → String
unfolding kept_end
trim_end String.[] = ""
trim_end (String.◌∷◌ c s) = kept_end c (trim_end s)

-- `strings.TrimSpace`
unfoldable pub trim_space : String → String
unfolding trim_start trim_end
trim_space s = trim_end (trim_start s)

-- `strings.ReplaceAll(s, "'", "\"")`
unfoldable pub replace_quotes : String → String
replace_quotes String.[] = ""
replace_quotes (String.◌∷◌ c s) =
    String.◌∷◌ (if nat_eq (code c) b'\'' then "\"" else c) (replace_quotes s)

-- What the process asks of its container. An error is its text. `python` gives the standard output
-- and the standard error, and the error of the run.
pub record Host : Type 1 where
  pub State : Type 0
  pub storage_root : String × Option String
  pub exists : String → State → Bool
  pub write_args : String → State → State × Option String
  pub python : String → State → State × String × String × Option String

pub record RunRequest : Type 0 where
  pub run_type : String
  pub script : String
  pub args : String

-- An HTTP request: its header, and what reading its body gives (`none`: no error).
pub record HttpRequest : Type 0 where
  pub header : List (String × String)  -- with the first value of each name
  pub body : String
  pub body_error : Option String

-- The loop over the header.
unfoldable pub read_header : List (String × String) → RunRequest → RunRequest
read_header [] r = r
read_header ((name, value) ∷ rest) r = read_header rest (
    if equal_fold name "RunType"
    then record r { run_type = value }
    else if equal_fold name "Script"
    then record r { script = value }
    else r)

-- What RunPythonScript returns: an output, or an output and an error.
pub data Ran : Type 0 where
  done : String → Ran
  fails : String → String → Ran

module _ (H : Host) where
  python_result : H.State × String × String × Option String → H.State × Ran
  python_result (s, stdout, stderr, some e) = (s, fails stderr e)
  python_result (s, stdout, stderr, none) = (s, done (replace_quotes (trim_space stdout)))

  run_saved : String → H.State × Option String → H.State × Ran
  unfolding python_result
  run_saved path (s, some e) = (s, fails "" ("dump args to file failed: " ^ e))
  run_saved path (s, none) = python_result (H.python path s)

  run_in : String × Option String → RunRequest → H.State → H.State × Ran
  unfolding run_saved
  run_in (root, some e) req s = (s, fails "" ("get coderun root failed: " ^ e))
  run_in (root, none) req s =
      let path = join_path (root ∷ "coderun" ∷ req.run_type ∷ req.script ∷ []) in
      if H.exists path s
      then run_saved path (H.write_args (if req.args == "" then "{}" else req.args) s)
      else (s, fails "" ("script: " ^ path ^ " not exists"))

  unfoldable pub run_python_script : RunRequest → H.State → H.State × Ran
  unfolding run_in
  run_python_script req s = run_in H.storage_root req s

  -- The response's status and body. `http.Error` ends the body with a newline, and errors.Wrap puts
  -- the output before the error.
  run_answer : H.State × Ran → H.State × ℕ × String
  run_answer (s, done out) = (s, status_ok, out)
  run_answer (s, fails out e) = (s, status_bad_request, out ^ ": " ^ e ^ "\n")

  parsed_run : Option String → HttpRequest → H.State → H.State × ℕ × String
  unfolding run_answer
  parsed_run (some e) req s = (s, status_bad_request, e ^ "\n")
  parsed_run none req s = run_answer (
      run_python_script
        (read_header req.header (record { run_type = ""; script = ""; args = req.body })) s)

  unfoldable pub run_handle : HttpRequest → H.State → H.State × ℕ × String
  unfolding parsed_run
  run_handle req s = parsed_run req.body_error req s

-- ===== src/Coderun/RunScript.antt =====
-- internal/coderun/watcher.go: RunScript, which sends a script's name and arguments to a worker over
-- HTTP, and the constructors of its arguments.
use mock_server.Prelude.{ℕ, String, List, [], ◌∷◌, Option, none, some, ◌==◌, if◌then◌else◌, nat_eq}
use mock_server.Errors.{Error, code_run_failed, worker_failed, failed, panicked, Result, ok, err}
use mock_server.Util.Text.{◌^◌}
use mock_server.Util.CodeWrappers.{wrap_args_for_dyn_handle, wrap_args_for_esb}
use mock_server.Coderun.Watcher.{Worker}
use mock_server.Server.Http.{status_ok, status_bad_request}

-- `data` is a reserved word here.
pub record Args : Type 0 where
  pub headers : String
  pub parts : List String

unfoldable pub new_dyn_handle_args : String → String → Args
new_dyn_handle_args headers body = record { headers = headers; parts = body ∷ [] }

unfoldable pub new_mapper_args : List String → Args
new_mapper_args msgs = record { headers = ""; parts = msgs }

-- `args.data[0]` panics if there is none.
dyn_handle_bytes : String → List String → Result String
dyn_handle_bytes headers [] = err panicked
dyn_handle_bytes headers (body ∷ rest) = ok (wrap_args_for_dyn_handle headers body)

-- The `switch run_type`.
unfoldable pub byte_args : String → Args → Result String
unfolding dyn_handle_bytes
byte_args run_type args =
    if run_type == "dyn_handle"
    then dyn_handle_bytes args.headers args.parts
    else if run_type == "mapper"
    then ok (wrap_args_for_esb args.parts)
    else err (failed ("invalid run type: " ^ run_type ^ ". Expected `dyn_handle` or `mapper`"))

-- net/http: a response with what reading its body gives, and the client. A request goes to an
-- address, with the headers RunType and Script and a body.
pub record HttpResponse : Type 0 where
  pub status_code : ℕ
  pub body : Result String

pub record HttpClient : Type 1 where
  pub State : Type 0
  pub post : String → String → String → String → State → State × Result HttpResponse

-- The `switch res.StatusCode`.
unfoldable pub response_result : ℕ → Result String → String × Option Error
response_result status (err e) = ("", some e)
response_result status (ok out) =
    if nat_eq status status_ok
    then (out, none)
    else if nat_eq status status_bad_request
    then (out, some code_run_failed)
    else ("", some worker_failed)

call_result : Result HttpResponse → String × Option Error
unfolding response_result
call_result (err e) = ("", some e)
call_result (ok res) = response_result res.status_code res.body

module _ (H : HttpClient) where
  sent : Worker → String → String → Result String → H.State → H.State × String × Option Error
  unfolding call_result
  sent w run_type script (err e) s = (s, "", some e)
  sent w run_type script (ok bytes) s =
      let (s', r) = H.post ("http://127.0.0.1:" ^ w.port ^ "/run") run_type script bytes s in
      let (out, e) = call_result r in (s', out, e)

  unfoldable pub run_script :
      Worker → String → String → Args → H.State → H.State × String × Option Error
  unfolding sent
  run_script w run_type script args s = sent w run_type script (byte_args run_type args) s

-- The workers as the rest of the program uses them: BorrowWorker, RunScript and Return.
pub record ScriptWorkers : Type 1 where
  pub State : Type 0
  pub Worker : Type 0
  pub borrow_worker : State → State × Result Worker
  pub return_worker : Worker → State → State
  pub run_script : Worker → String → String → Args → State → State × String × Option Error

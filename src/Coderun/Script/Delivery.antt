-- ===== src/Coderun/Script/Delivery.antt =====
-- internal/coderun and internal/server/noroute_handler.go together: a request to a dynamic endpoint,
-- from the handler over RunScript and the worker's process to the run of the script.
use mock_server.Prelude.{◌≡◌, refl, String, [], ◌∷◌, Option, none, some}
use mock_server.Errors.{Error, code_run_failed, Result, ok}
use mock_server.Util.Text.{◌^◌}
use mock_server.Util.CodeWrappers.{wrap_args_for_dyn_handle}
use mock_server.Database.Documents.{Route}
use mock_server.Coderun.Watcher.{Worker}
use mock_server.Coderun.RunScript.{
  Args, new_dyn_handle_args, byte_args, HttpClient, ScriptWorkers, run_script, response_result,
}
use mock_server.Coderun.Script.{
  Host, HttpRequest, RunRequest, Ran, done, fails, read_header, equal_fold, run_python_script,
  run_handle, run_answer,
}
use mock_server.Server.Http.{Response, reply, text, error_text, status_ok, status_bad_request}
use mock_server.Server.NoRoute.{Request, responds, handle_dynamic_route_request, run_reply}

-- The request as net/http delivers it: names in canonical form, and the client's own headers.
abbrev pub delivered : String → String → String → HttpRequest
delivered run_type script bytes = record {
  header =
      ("Runtype", run_type)
      ∷ ("Script", script)
      ∷ ("User-Agent", "Go-http-client/1.1")
      ∷ ("Accept-Encoding", "gzip")
      ∷ [];
  body = bytes;
  body_error = none;
}

-- A client whose requests reach the worker's process, and get its response.
abbrev pub delivery : Host → HttpClient
delivery H = record {
  State = H.State;
  post = λ url run_type script bytes s.
      let (s', status, body) = run_handle H (delivered run_type script bytes) s in
      (s', ok (record { status_code = status; body = ok body }));
}

-- A run, as the caller of RunScript sees it.
abbrev pub output_of : Ran → String × Option Error
output_of (done out) = (out, none)
output_of (fails out e) = (out ^ ": " ^ e ^ "\n", some code_run_failed)

abbrev pub run_request : String → String → String → RunRequest
run_request run_type script bytes = record { run_type = run_type; script = script; args = bytes }

read_header_delivered :
    (run_type script bytes : String)
    → read_header (delivered run_type script bytes).header (run_request "" "" bytes)
      ≡ run_request run_type script bytes
unfolding read_header equal_fold
read_header_delivered run_type script bytes = refl

-- What the caller makes of the response to a run.
read_answer :
    (H : Host) (p : H.State × Ran)
    → let (s', status, body) = run_answer H p in
      let (out, e) = response_result status (ok body) in
      Path
        (H.State × String × Option Error)
        (s', out, e)
        (p.0, (output_of p.1).0, (output_of p.1).1)
unfolding run_answer response_result
read_answer H (s, done out) = refl
read_answer H (s, fails out e) = refl

-- Whatever happens to the script, RunScript returns its output, or its output and error with
-- ErrCodeRunFailed.
pub run_script-delivery :
    (H : Host) (w : Worker) (run_type script : String) (args : Args) (bytes : String) (s : H.State)
    → byte_args run_type args ≡ ok bytes
    → let (s', r) = run_python_script H (run_request run_type script bytes) s in
      let (out, e) = output_of r in run_script (delivery H) w run_type script args s ≡ (s', out, e)
unfolding run_script run_handle
run_script-delivery H w run_type script args bytes s h =
    rw (h, read_header_delivered run_type script bytes)
      (read_answer H (run_python_script H (run_request run_type script bytes) s))

-- The answer of the endpoint.
abbrev pub answer_of : Ran → Response
answer_of (done out) = reply status_ok (text out)
answer_of (fails out e) = reply status_bad_request (error_text (out ^ ": " ^ e ^ "\n"))

-- The workers that a pool lends, each with its process.
module _ (H : Host) {P : Type 0} (borrow : P → P × Result Worker) (give_back : Worker → P → P) where
  abbrev pub workers_over : ScriptWorkers
  workers_over = record {
    State = P × H.State;
    Worker = Worker;
    borrow_worker = λ (p, s). let (p', r) = borrow p in ((p', s), r);
    return_worker = λ w (p, s). (give_back w p, s);
    run_script = λ w run_type script args (p, s).
        let (s', out, e) = run_script (delivery H) w run_type script args s in ((p, s'), out, e);
  }

  run_answered :
      (q : Ran)
      → let (out, e) = output_of q in run_reply workers_over out e ≡ responds (answer_of q)
  unfolding run_reply
  run_answered (done out) = refl
  run_answered (fails out e) = refl

  -- If a worker can be borrowed, the request's header and body can be read, and the worker's
  -- process gets the request and its response arrives, then a request to a dynamic endpoint runs
  -- the endpoint's script in that process on the header and the body as WrapArgsForDynHandle makes
  -- them, and the worker is given back. The answer is 200 with the script's output, or 400 with its
  -- error output and its error.
  pub handle_dynamic_route_request-delivery :
      (req : Request) (route : Route) (header body : String) (p p' : P) (w : Worker) (s : H.State)
      → borrow p ≡ (p', ok w)
      → req.header ≡ ok header
      → req.body ≡ ok body
      → let (s', q) =
          run_python_script H
            (run_request "dyn_handle" route.script_name (wrap_args_for_dyn_handle header body))
            s in
        handle_dynamic_route_request workers_over req route (p, s)
        ≡ ((give_back w p', s'), responds (answer_of q))
  unfolding handle_dynamic_route_request
  handle_dynamic_route_request-delivery req route header body p p' w s lends h b =
      let bytes = wrap_args_for_dyn_handle header body in
      let r = run_python_script H (run_request "dyn_handle" route.script_name bytes) s in
      let ran =
        run_script-delivery H w "dyn_handle" route.script_name (new_dyn_handle_args header body)
          bytes s (unfold byte_args new_dyn_handle_args in refl) in
      rw (lends, h, b, ran) (λ i. ((give_back w (lends i).0, r.0), run_answered r.1 i))

-- ===== src/Tests/Watcher.antt =====
-- internal/coderun/watcher.go with two workers, and the delivery of a request to a process that
-- always prints the same.
use mock_server.Prelude.{ℕ, ◌≤◌, ◌≡◌, refl, String, ◌==◌, Bool, true, false, List, [], ◌∷◌, none}
use mock_server.Errors.{Result, ok, err, failed}
use mock_server.Database.Routes.{dynamic_route}
use mock_server.Coderun.Watcher.{
  Worker, Info, Launch, Step, receive_worker, inspected, hand_over, repaired, receive_repair, send,
  Watcher, waiting, inspecting, init, run, step, borrow_received, borrow_inspected,
  hand_over_picked, send_repair, repair_received, repair_inspected, process_worker_info,
  repair_send, send_worker, empty_watcher, start_new_worker, send_new_worker,
}
use mock_server.Util.Queue.Monitor.{pick}
use mock_server.Coderun.Watcher.Circulation.{one_place, places, occurrences, workforce}
use mock_server.Coderun.Script.{Host, run_python_script}
use mock_server.Coderun.Script.Delivery.{workers_over, handle_dynamic_route_request-delivery}
use mock_server.Server.Http.{reply, text, status_ok}
use mock_server.Server.NoRoute.{Request, responds, handle_dynamic_route_request}

abbrev launch : String → Launch
launch port = record { free_port = ok port; created = none; started = none }

abbrev pub worker : String → ℕ → Worker
worker port c_id = record { port = port; c_id = c_id }

abbrev info : Bool → Bool → Info
info running paused = record {
  running = running;
  paused = paused;
  oom_killed = false;
  dead = false;
}

abbrev two_workers : Watcher
two_workers = record {
  worker_cnt = 2;
  workers = worker "1" 0 ∷ worker "2" 1 ∷ [];
  repair = [];
  worker_by_port = worker "2" 1 ∷ worker "1" 0 ∷ [];
  created = 2;
  received = [];
  broken = [];
  lent = [];
  loop = waiting;
  repair_closed = false;
  workers_closed = false;
  panicked = false;
}

-- One worker is lent; the other is found paused, and the repair loop inspects it once it runs.
abbrev lend_and_repair : List Step
lend_and_repair =
    receive_worker
    ∷ receive_worker
    ∷ inspected 0 (ok (info true false))
    ∷ inspected 0 (ok (info false true))
    ∷ hand_over 0
    ∷ receive_repair
    ∷ repaired (ok (info true false)) (launch "3")
    ∷ send
    ∷ []

lent_now : (run two_workers lend_and_repair).lent ≡ worker "2" 1 ∷ []
unfolding run step borrow_received borrow_inspected hand_over_picked send_repair repair_received
    repair_inspected process_worker_info repair_send send_worker pick
lent_now = refl

one_place_example :
    let s' = run two_workers lend_and_repair in
    (places 1 s' ≤ 1) × (occurrences 1 s'.lent ≤ 1) × (workforce s' ≤ s'.worker_cnt)
unfolding init empty_watcher start_new_worker send_new_worker send_worker
one_place_example =
    one_place (launch "1" ∷ launch "2" ∷ []) two_workers lend_and_repair refl
      (tt, (tt, (tt, (tt, (tt, (tt, (refl, (tt, tt)))))))) 1

-- The first worker has stopped.
abbrev second_runs : Worker → Result Info
second_runs w = ok (info (w.port == "2") false)

abbrev paused_one : Watcher
paused_one = record two_workers { workers = []; loop = inspecting (worker "1" 0) }

abbrev host : Host
host = record {
  State = Unit {0};
  storage_root = ("/src/.storage", none);
  exists = λ path s. path == "/src/.storage/coderun/dyn_handle/script_1.py";
  write_args = λ bytes s. (s, none);
  python = λ path s. (s, "{'a': 1}\n", "", none);
}

abbrev pub lend : List Worker → List Worker × Result Worker
lend [] = ([], err (failed "no running worker now"))
lend (w ∷ ws) = (ws, ok w)

abbrev pub give : Worker → List Worker → List Worker
give w ws = w ∷ ws

abbrev req : Request
req = record {
  method = "GET";
  request_uri = "/run";
  raw_query = "";
  header = ok "{}";
  body = ok "";
}

handle_dynamic_route_request-delivery_example :
    handle_dynamic_route_request
      (workers_over host lend give)
      req
      (dynamic_route "/run" "script_1.py")
      (worker "1" 0 ∷ [], tt)
    ≡ ((worker "1" 0 ∷ [], tt), responds (reply status_ok (text "{\"a\": 1}")))
unfolding run_python_script dynamic_route mock_server.Util.Text.join_path
    mock_server.Coderun.Script.replace_quotes mock_server.Coderun.Script.trim_space
handle_dynamic_route_request-delivery_example =
    handle_dynamic_route_request-delivery host lend give req (dynamic_route "/run" "script_1.py")
      "{}" "" (worker "1" 0 ∷ []) [] (worker "1" 0) tt refl refl refl

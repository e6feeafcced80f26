-- ===== src/Coderun/Watcher.antt =====
-- internal/coderun/watcher.go: the pool of workers, as a machine whose steps are the atomic actions of
-- the repair loop, of the goroutines that borrow and return workers, and of Stop. What Docker answers
-- is part of a step. A send on a channel that is full waits: its step changes nothing.
pub mod Circulation
pub mod Broken
pub mod Borrow
use mock_server.Prelude.{
  ℕ, zero, suc, ◌+◌, String, Bool, true, false, ◌&&◌, ◌||◌, List, [], ◌∷◌, ◌++◌, Option, none, some,
  length, ltb, ◌==◌, if◌then◌else◌,
}
use mock_server.Errors.{Error, Result, ok, err}
use mock_server.Util.Queue.Monitor.{pick}

-- `cId` is the container's place in the order of creation: Docker gives no id twice.
pub record Worker : Type 0 where
  pub port : String
  pub c_id : ℕ

-- types.ContainerState, as far as it is read.
pub record Info : Type 0 where
  pub running : Bool
  pub paused : Bool
  pub oom_killed : Bool
  pub dead : Bool

-- What startNewWorker is told: by getFreePort, by ContainerCreate and by ContainerStart.
pub record Launch : Type 0 where
  pub free_port : Result String
  pub created : Option Error
  pub started : Option Error

-- A send that the repair loop has to make. After the send of a worker that is new, it is put in the
-- map.
pub data Send : Type 0 where
  to_workers to_repair new_to_workers : Worker → Send

pub data Step : Type 0 where
  receive_worker : Step  -- BorrowWorker receives from `workers`
  inspected : ℕ → Result Info → Step  -- it has inspected the container of what it received
  hand_over : ℕ → Step  -- it sends a broken worker to `repair`
  return_worker : ℕ → Step  -- Return
  receive_repair : Step  -- the repair loop receives from `repair`
  repaired : Result Info → Launch → Step  -- it has inspected the container
  send : Step  -- it makes the next of its sends
  stop_close_repair stop_close_workers : Step

-- What the repair loop is doing.
pub data Repair : Type 0 where
  waiting : Repair
  inspecting : Worker → Repair
  sending : List Send → Repair

pub record Watcher : Type 0 where
  pub worker_cnt : ℕ  -- the capacity of both channels
  pub workers : List Worker
  pub repair : List Worker
  pub worker_by_port : List Worker
  pub created : ℕ  -- how many containers were created
  pub received : List Worker  -- received by BorrowWorker, and not inspected
  pub broken : List Worker  -- inspected and broken, and not sent on
  pub lent : List Worker  -- borrowed
  pub loop : Repair
  pub repair_closed : Bool
  pub workers_closed : Bool
  pub panicked : Bool

-- `w.workerByPort[port] = worker` and `delete(w.workerByPort, port)`
abbrev pub delete_port : String → List Worker → List Worker
delete_port p [] = []
delete_port p (w ∷ ws) = let rest = delete_port p ws in if w.port == p then rest else w ∷ rest

abbrev pub set_port : Worker → List Worker → List Worker
set_port w ws = w ∷ delete_port w.port ws

-- startNewWorker up to its send: the new worker, if there is one.
unfoldable pub start_new_worker : Launch → Watcher → Watcher × Option Worker
start_new_worker l s = elim l.free_port [
  | err e ↦ (s, none)
  | ok port ↦ elim l.created [
    | some e ↦ (s, none)
    | none ↦
        let w : Worker = record { port = port; c_id = s.created } in
        let s' = record s { created = suc s.created } in
        elim l.started [ some e ↦ (s', none) | none ↦ (s', some w) ]
  ]
]

-- A send to `workers`: whether it is made.
unfoldable pub send_worker : Worker → Watcher → Watcher × Bool
send_worker w s =
    if s.workers_closed
    then (record s { panicked = true }, true)
    else if ltb (length s.workers) s.worker_cnt
    then (record s { workers = s.workers ++ w ∷ [] }, true)
    else (s, false)

put_in_map : Worker → Watcher × Bool → Watcher × Bool
put_in_map w (s, true) = (record s { worker_by_port = set_port w s.worker_by_port }, true)
put_in_map w (s, false) = (s, false)

-- The end of startNewWorker.
unfoldable pub send_new_worker : Worker → Watcher → Watcher × Bool
unfolding put_in_map
send_new_worker w s = put_in_map w (send_worker w s)

-- A send to `repair`: whether it is made.
unfoldable pub send_repair : Worker → Watcher → Watcher × Bool
send_repair w s =
    if s.repair_closed
    then (record s { panicked = true }, true)
    else if ltb (length s.repair) s.worker_cnt
    then (record s { repair = s.repair ++ w ∷ [] }, true)
    else (s, false)

-- processWorkerInfo: the sends that it makes. The container is restarted before the second.
unfoldable pub process_worker_info : Worker → Info → List Send
process_worker_info w info =
    (if info.running then to_workers w ∷ [] else [])
    ++ (if info.paused || info.oom_killed || info.dead then to_repair w ∷ [] else [])

-- What BorrowWorker does with a worker that it has received: an error gives nothing to the caller,
-- a running worker is lent, and any other goes to `repair`.
unfoldable pub borrow_inspected : Worker → List Worker → Result Info → Watcher → Watcher
borrow_inspected w rest (err e) s = record s { received = rest }
borrow_inspected w rest (ok info) s =
    if info.running
    then record s { received = rest; lent = w ∷ s.lent }
    else record s { received = rest; broken = w ∷ s.broken }

-- The receive of BorrowWorker. A closed channel that is empty gives nil, whose id is then read.
unfoldable pub borrow_received : List Worker → Watcher → Watcher
borrow_received [] s = if s.workers_closed then record s { panicked = true } else s
borrow_received (w ∷ ws) s = record s { workers = ws; received = w ∷ s.received }

abbrev pub inspect_picked : Result Info → Watcher → Option (Worker × List Worker) → Watcher
inspect_picked r s none = s
inspect_picked r s (some (w, rest)) = borrow_inspected w rest r s

unfoldable pub hand_over_picked : Watcher → Option (Worker × List Worker) → Watcher
hand_over_picked s none = s
hand_over_picked s (some (w, rest)) =
    let (s', sent) = send_repair w s in if sent then record s' { broken = rest } else s

-- Return
unfoldable pub return_picked : Watcher → Option (Worker × List Worker) → Watcher
return_picked s none = s
return_picked s (some (w, rest)) =
    let (s', sent) = send_worker w s in if sent then record s' { lent = rest } else s

-- The receive of repairLoop.
unfoldable pub repair_received : Repair → List Worker → Watcher → Watcher
repair_received waiting (w ∷ ws) s = record s { repair = ws; loop = inspecting w }
repair_received _ _ s = s

launched : Watcher × Option Worker → Watcher
launched (s, none) = record s { loop = waiting }
launched (s, some w) = record s { loop = sending (new_to_workers w ∷ []) }

-- repairLoop once it has inspected the container. A worker that cannot be inspected is removed, and
-- a new one is started in its place.
unfoldable pub repair_inspected : Repair → Result Info → Launch → Watcher → Watcher
unfolding launched
repair_inspected (inspecting w) (ok info) l s = record s {
  loop = sending (process_worker_info w info);
}
repair_inspected (inspecting w) (err e) l s =
    launched
      (start_new_worker l (record s { worker_by_port = delete_port w.port s.worker_by_port }))
repair_inspected _ r l s = s

sent_on : List Send → Watcher → Watcher × Bool → Watcher
sent_on rest s (s', true) = record s' { loop = sending rest }
sent_on rest s (s', false) = s

unfoldable pub repair_send : Repair → Watcher → Watcher
unfolding sent_on
repair_send (sending []) s = record s { loop = waiting }
repair_send (sending (to_workers w ∷ rest)) s = sent_on rest s (send_worker w s)
repair_send (sending (to_repair w ∷ rest)) s = sent_on rest s (send_repair w s)
repair_send (sending (new_to_workers w ∷ rest)) s = sent_on rest s (send_new_worker w s)
repair_send _ s = s

unfoldable pub step : Watcher → Step → Watcher
step s receive_worker = borrow_received s.workers s
step s (inspected i r) = inspect_picked r s (pick i s.received)
step s (hand_over i) = hand_over_picked s (pick i s.broken)
step s (return_worker i) = return_picked s (pick i s.lent)
step s receive_repair = repair_received s.loop s.repair s
step s (repaired r l) = repair_inspected s.loop r l s
step s send = repair_send s.loop s
step s stop_close_repair = record s { repair_closed = true }
step s stop_close_workers = record s { workers_closed = true }

unfoldable pub run : Watcher → List Step → Watcher
run s [] = s
run s (e ∷ es) = run (step s e) es

-- Init: `workers` is made with the capacity and filled by that many calls of startNewWorker; a list
-- holds what each is told. A failure ends it.
unfoldable pub empty_watcher : ℕ → Watcher
empty_watcher n = record {
  worker_cnt = n;
  workers = [];
  repair = [];
  worker_by_port = [];
  created = 0;
  received = [];
  broken = [];
  lent = [];
  loop = waiting;
  repair_closed = false;
  workers_closed = false;
  panicked = false;
}

start_all : List Launch → Watcher → Option Watcher
start_all [] s = some s
start_all (l ∷ ls) s =
    let (s', started) = start_new_worker l s in
    elim started [ none ↦ none | some w ↦ start_all ls (send_new_worker w s').0 ]

unfoldable pub init : List Launch → Option Watcher
unfolding start_all
init ls = start_all ls (empty_watcher (length ls))

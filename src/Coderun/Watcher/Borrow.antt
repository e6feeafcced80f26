-- ===== src/Coderun/Watcher/Borrow.antt =====
-- internal/coderun/watcher.go: BorrowWorker from the call to the return or the panic, where nobody else is at work
-- on the channels meanwhile, seen as a run of the machine.
use mock_server.Prelude.{
  ℕ, zero, suc, ◌≡◌, ◌≢◌, true, false, List, [], ◌∷◌, Option, none, some, if◌then◌else◌, All,
}
use mock_server.Errors.{failed, panicked, Result, ok, err}
use mock_server.Coderun.Watcher.{Worker, Info, Step, Watcher, send_repair, run}
use mock_server.Coderun.Watcher.Circulation.{IsSane}

-- The loop. `rounds` is how often the select receives a worker before it takes the case that the
-- context is done, which it may take although the channel holds workers; where the channel is open
-- and empty only that case is left. A closed channel that is empty gives nil, whose id is then read.
-- The result is `none` where a send to `repair` waits. `inspect` is what Docker says of a worker's
-- container.
unfoldable pub borrow_worker :
    (Worker → Result Info) → ℕ → List Worker → Watcher → Watcher × Option (Result Worker)
borrow_worker inspect zero ws s = (s, some (err (failed "no running worker now")))
borrow_worker inspect (suc rounds) [] s =
    if s.workers_closed
    then (record s { panicked = true }, some (err panicked))
    else (s, some (err (failed "no running worker now")))
borrow_worker inspect (suc rounds) (w ∷ ws) s =
    let s' = record s { workers = ws } in
    elim (inspect w) [
      | err e ↦ (s', some (err e))
      | ok info ↦
          if info.running
          then (record s' { lent = w ∷ s'.lent }, some (ok w))
          else (let (s'', sent) = send_repair w s' in
              elim sent [ true ↦ borrow_worker inspect rounds ws s'' | false ↦ (s'', none) ])
    ]

-- A state in which no BorrowWorker is under way.
abbrev pub calm : Watcher → List Worker → List Worker → Watcher
calm s ws r = record s {
  workers = ws;
  repair = r;
  received = [];
  broken = [];
  repair_closed = false;
}

-- The steps of BorrowWorker have led to its state, the worker that it returns is the one that it has
-- put among those that are lent, and it returns.
abbrev pub Borrows : Watcher → Watcher × Option (Result Worker) → Type 0
Borrows s p =
    (es : List Step) × All IsSane es
    × (run s es ≡ p.0)
    × ((w : Worker) → p.1 ≡ some (ok w) → p.0.lent ≡ w ∷ s.lent)
    × (p.1 ≢ none)

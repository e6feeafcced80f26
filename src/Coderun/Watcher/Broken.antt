-- ===== src/Coderun/Watcher/Broken.antt =====
-- internal/coderun/watcher.go: what the repair loop makes of containers that are paused and of
-- containers that have exited.
use mock_server.Prelude.{◌<◌, ◌≡◌, refl, true, false, ◌||◌, [], ◌∷◌, ◌++◌, length, arith}
use mock_server.Errors.{ok}
use mock_server.Coderun.Watcher.{
  Worker, Info, Launch, repaired, send, waiting, inspecting, Watcher, process_worker_info,
  send_worker, send_repair, repair_inspected, repair_send, step, run,
}

-- If the repair loop finds the container of a worker running and paused, and both channels are open
-- and have room, then it puts the worker into both of them.
repaired_twice :
    (s : Watcher) (w : Worker) (info : Info) (l : Launch)
    → s.loop ≡ inspecting w
    → info.running ≡ true
    → info.paused ≡ true
    → s.workers_closed ≡ false
    → s.repair_closed ≡ false
    → length s.workers < s.worker_cnt
    → length s.repair < s.worker_cnt
    → let s' = run s (repaired (ok info) l ∷ send ∷ send ∷ []) in
      (s'.workers ≡ s.workers ++ w ∷ []) × (s'.repair ≡ s.repair ++ w ∷ [])
unfolding run step repair_inspected process_worker_info repair_send send_worker send_repair
repaired_twice s w info l holding running paused open1 open2 room1 room2 = ground arith

-- A worker whose container has exited, and is neither running, paused, killed nor dead, is in no
-- place any more once the repair loop has looked at it.
pub exited_lost :
    (s : Watcher) (w : Worker) (info : Info) (l : Launch)
    → s.loop ≡ inspecting w
    → info.running ≡ false
    → info.paused || info.oom_killed || info.dead ≡ false
    → run s (repaired (ok info) l ∷ send ∷ []) ≡ record s { loop = waiting }
unfolding run step repair_inspected process_worker_info repair_send
exited_lost s w info l holding running broken = rw (holding, running, broken) refl

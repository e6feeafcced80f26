-- ===== src/Coderun/Watcher/Circulation.antt =====
-- internal/coderun/watcher.go: where each worker is, as long as the repair loop inspects no container
-- that is running and broken at once (Docker calls a paused container running, see
-- Coderun/Watcher/Broken.antt).
use mock_server.Prelude.{
  ℕ, suc, ◌+◌, ◌≤◌, ◌<◌, ◌≡◌, refl, ◌∙◌, Bool, false, ◌&&◌, ◌||◌, List, [], ◌∷◌, some, length,
  length-append, nat_eq, if◌then◌else◌, arith, All, Option-cases, inl, inr,
}
use mock_server.Errors.{Result, ok, err}
use mock_server.Util.Queue.Monitor.{pick}
use mock_server.Util.Tally.{tally, tally-append, tally-pick, length-pick}
use mock_server.Coderun.Watcher.{
  Worker, Info, Launch, Send, to_workers, to_repair, new_to_workers, Step, receive_worker,
  inspected, hand_over, return_worker, receive_repair, repaired, send, stop_close_repair,
  stop_close_workers, Repair, waiting, inspecting, sending, Watcher, start_new_worker, send_worker,
  send_new_worker, send_repair, process_worker_info, borrow_inspected, borrow_received,
  hand_over_picked, return_picked, repair_received, launched, repair_inspected, put_in_map,
  repair_send, step, run, init, empty_watcher, start_all,
}

abbrev is_container : ℕ → Worker → Bool
is_container c w = nat_eq w.c_id c

abbrev pub worker_of : Send → Worker
worker_of (to_workers w) = w
worker_of (to_repair w) = w
worker_of (new_to_workers w) = w

-- How often the container stands in a list of workers.
abbrev pub occurrences : ℕ → List Worker → ℕ
occurrences c = tally (is_container c)

abbrev pub in_loop : ℕ → Repair → ℕ
in_loop c waiting = 0
in_loop c (inspecting w) = if nat_eq w.c_id c then 1 else 0
in_loop c (sending l) = tally (λ m. nat_eq (worker_of m).c_id c) l

-- In how many places the container is.
abbrev pub places : ℕ → Watcher → ℕ
places c s =
    occurrences c s.workers
    + occurrences c s.repair
    + occurrences c s.received
    + occurrences c s.broken
    + occurrences c s.lent
    + in_loop c s.loop

abbrev pub loop_size : Repair → ℕ
loop_size waiting = 0
loop_size (inspecting w) = 1
loop_size (sending l) = length l

-- How many workers there are in all places.
abbrev pub workforce : Watcher → ℕ
workforce s =
    length s.workers
    + length s.repair
    + length s.received
    + length s.broken
    + length s.lent
    + loop_size s.loop

-- The step does not find a container running and broken at once.
abbrev pub IsSane : Step → Type 0
IsSane (repaired (ok info) l) =
    info.running && (info.paused || info.oom_killed || info.dead) ≡ false
IsSane _ = Unit {0}

abbrev pub IsSound : Watcher → Type 0
IsSound s =
    (workforce s ≤ s.worker_cnt) × ((c : ℕ) → (places c s ≤ 1) × (s.created ≤ c → places c s ≡ 0))

-- Each operation, on a worker that has been taken out of the list it was in.

receive-IsSound :
    (s : Watcher) (ws : List Worker) → s.workers ≡ ws → IsSound s → IsSound (borrow_received ws s)
unfolding borrow_received
receive-IsSound s [] e (r, p) = (ground arith, λ c. ground (arith, p c))
receive-IsSound s (w ∷ ws) e (r, p) = (ground arith, λ c. ground (arith, p c))

borrow_inspected-IsSound :
    (s : Watcher) (i : ℕ) (w : Worker) (rest : List Worker) (r : Result Info)
    → pick i s.received ≡ some (w, rest)
    → IsSound s
    → IsSound (borrow_inspected w rest r s)
unfolding borrow_inspected
borrow_inspected-IsSound s i w rest (err e) h (r, p) = (
  ground (arith, length-pick i s.received w rest h),
  λ c. ground (arith, p c, tally-pick (is_container c) i s.received w rest h),
)
borrow_inspected-IsSound s i w rest (ok info) h (r, p) = (
  ground (arith, length-pick i s.received w rest h),
  λ c. ground (arith, p c, tally-pick (is_container c) i s.received w rest h),
)

hand_over_picked-IsSound :
    (s : Watcher) (i : ℕ) (w : Worker) (rest : List Worker)
    → pick i s.broken ≡ some (w, rest)
    → IsSound s
    → IsSound (hand_over_picked s (some (w, rest)))
unfolding hand_over_picked send_repair
hand_over_picked-IsSound s i w rest h (r, p) = (
  ground (arith, length-pick i s.broken w rest h, length-append s.repair (w ∷ [])),
  λ c. ground (
    arith,
    p c,
    tally-pick (is_container c) i s.broken w rest h,
    tally-append (is_container c) s.repair (w ∷ []),
  ),
)

return_picked-IsSound :
    (s : Watcher) (i : ℕ) (w : Worker) (rest : List Worker)
    → pick i s.lent ≡ some (w, rest)
    → IsSound s
    → IsSound (return_picked s (some (w, rest)))
unfolding return_picked send_worker
return_picked-IsSound s i w rest h (r, p) = (
  ground (arith, length-pick i s.lent w rest h, length-append s.workers (w ∷ [])),
  λ c. ground (
    arith,
    p c,
    tally-pick (is_container c) i s.lent w rest h,
    tally-append (is_container c) s.workers (w ∷ []),
  ),
)

repair_received-IsSound :
    (s : Watcher) (l : Repair) (ws : List Worker)
    → s.loop ≡ l
    → s.repair ≡ ws
    → IsSound s
    → IsSound (repair_received l ws s)
unfolding repair_received
repair_received-IsSound s waiting (w ∷ ws) e h (r, p) = (ground arith, λ c. ground (arith, p c))
repair_received-IsSound s waiting [] e h b = b
repair_received-IsSound s (inspecting w) ws e h b = b
repair_received-IsSound s (sending l) ws e h b = b

process_worker_info_single :
    (w : Worker) (info : Info)
    → info.running && (info.paused || info.oom_killed || info.dead) ≡ false
    → (length (process_worker_info w info) ≤ 1)
      × ((c : ℕ)
          → tally (λ m. nat_eq (worker_of m).c_id c) (process_worker_info w info)
            ≤ (if nat_eq w.c_id c then 1 else 0))
unfolding process_worker_info
process_worker_info_single w info h = (ground arith, λ c. ground arith)

repair_inspected-IsSound :
    (s : Watcher) (m : Repair) (r : Result Info) (l : Launch)
    → s.loop ≡ m
    → IsSane (repaired r l)
    → IsSound s
    → IsSound (repair_inspected m r l s)
unfolding repair_inspected start_new_worker launched
repair_inspected-IsSound s (inspecting w) (ok info) l e sane (r, p) =
    let (n, q) = process_worker_info_single w info sane in
    (ground (arith, n), λ c. ground (arith, p c, q c))
repair_inspected-IsSound s (inspecting w) (err x) l e sane (r, p) =
    (ground arith, λ c. ground (arith, p c, p s.created))
repair_inspected-IsSound s waiting r l e sane b = b
repair_inspected-IsSound s (sending q) r l e sane b = b

repair_send-IsSound :
    (s : Watcher) (m : Repair) → s.loop ≡ m → IsSound s → IsSound (repair_send m s)
unfolding repair_send send_worker send_new_worker send_repair put_in_map
repair_send-IsSound s waiting e b = b
repair_send-IsSound s (inspecting w) e b = b
repair_send-IsSound s (sending []) e (r, p) = (ground arith, λ c. ground (arith, p c))
repair_send-IsSound s (sending (to_workers w ∷ rest)) e (r, p) = (
  ground (arith, length-append s.workers (w ∷ [])),
  λ c. ground (arith, p c, tally-append (is_container c) s.workers (w ∷ [])),
)
repair_send-IsSound s (sending (new_to_workers w ∷ rest)) e (r, p) = (
  ground (arith, length-append s.workers (w ∷ [])),
  λ c. ground (arith, p c, tally-append (is_container c) s.workers (w ∷ [])),
)
repair_send-IsSound s (sending (to_repair w ∷ rest)) e (r, p) = (
  ground (arith, length-append s.repair (w ∷ [])),
  λ c. ground (arith, p c, tally-append (is_container c) s.repair (w ∷ [])),
)

step-IsSound : (s : Watcher) (e : Step) → IsSane e → IsSound s → IsSound (step s e)
unfolding step hand_over_picked return_picked
step-IsSound s receive_worker sane b = receive-IsSound s s.workers refl b
step-IsSound s (inspected i r) sane b = elim (Option-cases (pick i s.received)) [
  | inl h ↦ rw h b
  | inr ((w, rest), h) ↦ rw h (borrow_inspected-IsSound s i w rest r h b)
]
step-IsSound s (hand_over i) sane b = elim (Option-cases (pick i s.broken)) [
  | inl h ↦ rw h b
  | inr ((w, rest), h) ↦ rw h (hand_over_picked-IsSound s i w rest h b)
]
step-IsSound s (return_worker i) sane b = elim (Option-cases (pick i s.lent)) [
  | inl h ↦ rw h b
  | inr ((w, rest), h) ↦ rw h (return_picked-IsSound s i w rest h b)
]
step-IsSound s receive_repair sane b = repair_received-IsSound s s.loop s.repair refl refl b
step-IsSound s (repaired r l) sane b = repair_inspected-IsSound s s.loop r l refl sane b
step-IsSound s send sane b = repair_send-IsSound s s.loop refl b
step-IsSound s stop_close_repair sane b = b
step-IsSound s stop_close_workers sane b = b

run-IsSound : (s : Watcher) (es : List Step) → All IsSane es → IsSound s → IsSound (run s es)
unfolding run
run-IsSound s [] sane b = b
run-IsSound s (e ∷ es) (sane, more) b = run-IsSound (step s e) es more (step-IsSound s e sane b)

-- One more call of startNewWorker during Init.
start-IsSound :
    (l : Launch) (s : Watcher) (w : Worker)
    → (start_new_worker l s).1 ≡ some w
    → workforce s < s.worker_cnt
    → IsSound s
    → let s' = (send_new_worker w (start_new_worker l s).0).0 in
      IsSound s' × (workforce s' ≤ suc (workforce s)) × (s'.worker_cnt ≡ s.worker_cnt)
unfolding start_new_worker send_worker send_new_worker put_in_map
start-IsSound l s w h room (r, p) = (
  (
    ground (arith, length-append s.workers (w ∷ [])),
    λ c. ground (arith, p c, p s.created, tally-append (is_container c) s.workers (w ∷ [])),
  ),
  ground (arith, length-append s.workers (w ∷ [])),
  ground arith,
)

start_all-IsSound :
    (ls : List Launch) (s s' : Watcher)
    → IsSound s
    → workforce s + length ls ≤ s.worker_cnt
    → start_all ls s ≡ some s'
    → IsSound s' × (s'.worker_cnt ≡ s.worker_cnt)
unfolding start_all
start_all-IsSound [] s s' b room h = let e : s ≡ s' = cc in rw (← e) (b, refl)
start_all-IsSound (l ∷ ls) s s' b room h = elim (Option-cases (start_new_worker l s).1) [
  | inl failed ↦ let h' = rw (failed, start_all) at h in cc
  | inr (w, started) ↦
      let (b', more, same) = start-IsSound l s w started (omega arith) b in
      let (done, cnt) = start_all-IsSound ls _ s' b' (omega arith) (rw (started, start_all) at h) in
      (done, cnt ∙ same)
]

init-IsSound :
    (ls : List Launch) (s : Watcher) → init ls ≡ some s → IsSound s × (s.worker_cnt ≡ length ls)
unfolding init empty_watcher
init-IsSound ls s h =
    start_all-IsSound ls (empty_watcher (length ls)) s (ground arith, λ c. ground arith)
      (ground arith) h

-- After Init has succeeded and whatever steps follow, if the repair loop inspects no container that
-- is running and paused, killed or dead at once, then a container is in at most one place and lent
-- at most once, and there are no more workers in all places than a channel has room for.
pub one_place :
    (ls : List Launch) (s : Watcher) (es : List Step)
    → init ls ≡ some s
    → All IsSane es
    → (c : ℕ)
    → let s' = run s es in
      (places c s' ≤ 1) × (occurrences c s'.lent ≤ 1) × (workforce s' ≤ s'.worker_cnt)
one_place ls s es made sane c =
    let (few, p) = run-IsSound s es sane (init-IsSound ls s made).0 in ground (arith, p c, few)

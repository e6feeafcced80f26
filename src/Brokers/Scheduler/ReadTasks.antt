-- ===== src/Brokers/Scheduler/ReadTasks.antt =====
-- internal/brokers/mp_task_scheduler.go: a read task is never under way twice.
use mock_server.Prelude.{
  ℕ, zero, suc, ◌+◌, ◌≤◌, ◌≡◌, refl, String, Bool, false, List, [], ◌∷◌, Option, none, some, ◌==◌,
  if◌then◌else◌, arith, eq_iff, Option-cases, inl, inr,
}
use mock_server.Errors.{Error}
use mock_server.Util.Queue
use mock_server.Util.Queue.{
  new_unbounded_blocking_queue, Deque, DequeLaws, BlockingQueue, Pass, waits, returns, panics,
}
use mock_server.Util.Queue.Passes.{
  items, PutCase, GetCase, sleeps, shut, adds, ends, takes, put-PutCase, get-GetCase,
}
use mock_server.Util.Queue.Monitor.{pick}
use mock_server.Util.Tally.{tally, tally-append, tally-pick}
use mock_server.Util.SyncSet.{
  new_sync_set, contains, contains-insert, contains-remove, insert-contains,
}
use mock_server.Brokers.Scheduler.{
  TaskError, qread, submit_error, submit_write_task, queued_write, taken_write, take_write_task,
  end_write, receive, queued_read, taken_read, Task, Work, Step, submit_read, submit_write,
  put_read, take_read, take_write, finish_read, finish_write, receive_error, close_reads,
  close_writes, close_errors, join, Stopping, not_stopping, closed_reads, closed_writes,
  closed_errors, joined, stop_reads, stop_writes, stop_errors, stop_joined, Scheduler, init,
  submit_read_task, take_read_task, end_read, report, step, run,
}

-- How many tasks of the list have the id.
abbrev pub occurrences : String → List Task → ℕ
occurrences k = tally (λ t. t.task_id == k)

abbrev has_id : String → Task → Bool
has_id k t = t.task_id == k

module _ {D : Deque Task} (L : DequeLaws D) where
  -- How many read tasks with the id are between their submission and the end of their work.
  abbrev pub under_way : String → Scheduler D → ℕ
  under_way k s =
      occurrences k s.submitting + occurrences k (items L s.read_tasks) + occurrences k s.reading

  abbrev pub running : String → Scheduler D → ℕ
  running k s = if contains k s.running_read_tasks then 1 else 0

  abbrev pub IsBalanced : Scheduler D → Type 0
  IsBalanced s =
      (k : String)
      → (under_way k s ≤ running k s) × (s.read_tasks.closed ≡ false → under_way k s ≡ running k s)

  submit_read_task-IsBalanced :
      (t : Task) (s : Scheduler D) → IsBalanced s → IsBalanced (submit_read_task D t s)
  unfolding submit_read_task
  submit_read_task-IsBalanced t s b k = ground (
    arith,
    b k,
    eq_iff t.task_id k,
    contains-insert t.task_id k s.running_read_tasks,
    insert-contains t.task_id s.running_read_tasks,
  )

  queued_read-IsBalanced :
      (t : Task) (rest : List Task) (s : Scheduler D) (p : Pass (BlockingQueue D) Bool)
      → PutCase L t s.read_tasks p
      → ((k : String) → occurrences k s.submitting ≡ occurrences k (t ∷ rest))
      → IsBalanced s
      → IsBalanced (queued_read D rest s p)
  queued_read-IsBalanced t rest s p (sleeps c f) o b k = b k
  queued_read-IsBalanced t rest s p (shut c) o b k = ground (arith, b k, o k)
  queued_read-IsBalanced t rest s p (adds q' c f added m same) o b k =
      ground (arith, b k, o k, tally-append (has_id k) (items L s.read_tasks) (t ∷ []), added)

  taken_read-IsBalanced :
      (idle : ℕ) (s : Scheduler D) (p : Pass (BlockingQueue D) (Option Task))
      → GetCase L s.read_tasks p
      → IsBalanced s
      → IsBalanced (taken_read D idle s p)
  taken_read-IsBalanced idle s p (sleeps c e) b k = b k
  taken_read-IsBalanced idle s p (ends c e) b k = b k
  taken_read-IsBalanced idle s p (takes q' x e m same) b k = ground (arith, b k, e)

  -- Nothing that concerns read tasks differs.
  abbrev IsSame : Scheduler D → Scheduler D → Type 0
  IsSame s s' =
      (s'.read_tasks ≡ s.read_tasks)
      × (s'.submitting ≡ s.submitting)
      × (s'.running_read_tasks ≡ s.running_read_tasks)
      × (s'.reading ≡ s.reading)

  IsBalanced-IsSame : (s s' : Scheduler D) → IsSame s s' → IsBalanced s → IsBalanced s'
  IsBalanced-IsSame s s' (q, u, r, w) b k = rw (q, u, r, w) (b k)

  queued_write_frame :
      (s : Scheduler D) (p : Pass (BlockingQueue D) Bool) → IsSame s (queued_write D s p)
  unfolding queued_write
  queued_write_frame s waits = (refl, refl, refl, refl)
  queued_write_frame s (returns q b) = (refl, refl, refl, refl)
  queued_write_frame s panics = (refl, refl, refl, refl)

  taken_write_frame :
      (idle : ℕ) (s : Scheduler D) (p : Pass (BlockingQueue D) (Option Task))
      → IsSame s (taken_write D idle s p)
  unfolding taken_write
  taken_write_frame idle s waits = (refl, refl, refl, refl)
  taken_write_frame idle s (returns q none) = (refl, refl, refl, refl)
  taken_write_frame idle s (returns q (some t)) = (refl, refl, refl, refl)
  taken_write_frame idle s panics = (refl, refl, refl, refl)

  take_write_frame : (n : ℕ) (s : Scheduler D) → IsSame s (take_write_task D n s)
  unfolding take_write_task
  take_write_frame zero s = (refl, refl, refl, refl)
  take_write_frame (suc n) s = taken_write_frame n s _

  take_read-IsBalanced :
      (n : ℕ) (s : Scheduler D) → IsBalanced s → IsBalanced (take_read_task D n s)
  take_read-IsBalanced zero s b = b
  take_read-IsBalanced (suc n) s b = taken_read-IsBalanced n s _ (get-GetCase L s.read_tasks) b

  -- submitError touches the error channel alone.
  submit_error_frame :
      (id : String) (e : Error) (s : Scheduler D) → IsSame s (submit_error D id e s)
  unfolding submit_error
  submit_error_frame id e s = ground arith

  report_frame : (id : String) (e : Option Error) (s : Scheduler D) → IsSame s (report D id e s)
  report_frame id none s = (refl, refl, refl, refl)
  report_frame id (some e) s = ground (arith, submit_error_frame id e s)

  end_read-IsBalanced :
      (t : Task) (rest : List Task) (work : Work) (s : Scheduler D)
      → ((k : String) → occurrences k s.reading ≡ occurrences k (t ∷ rest))
      → IsBalanced s
      → IsBalanced (end_read D t rest work s)
  unfolding end_read
  end_read-IsBalanced t rest work s o b k =
      let (q, u, r, _) = report_frame t.task_id (qread work).0 s in
      rw (q, u, r, contains-remove t.task_id k s.running_read_tasks)
        (ground (arith, b k, o k, eq_iff t.task_id k))

  end_write_frame :
      (work : Work) (s : Scheduler D) (o : Option (Task × List Task))
      → IsSame s (end_write D work s o)
  unfolding end_write
  end_write_frame work s none = (refl, refl, refl, refl)
  end_write_frame work s (some (t, rest)) = report_frame t.task_id (qread work).0 s

  receive_frame : (s : Scheduler D) (es : List TaskError) → IsSame s (receive D s es)
  unfolding receive
  receive_frame s [] = (refl, refl, refl, refl)
  receive_frame s (e ∷ es) = (refl, refl, refl, refl)

  stop_reads-IsBalanced :
      (st : Stopping) (s : Scheduler D) → IsBalanced s → IsBalanced (stop_reads D st s)
  unfolding stop_reads
  stop_reads-IsBalanced not_stopping s b =
      λ k. unfold Queue.close in ground (arith, b k, L.contents-clear s.read_tasks.elems)
  stop_reads-IsBalanced closed_reads s b = b
  stop_reads-IsBalanced closed_writes s b = b
  stop_reads-IsBalanced closed_errors s b = b
  stop_reads-IsBalanced joined s b = b

  stop_writes-IsBalanced :
      (st : Stopping) (s : Scheduler D) → IsBalanced s → IsBalanced (stop_writes D st s)
  unfolding stop_writes
  stop_writes-IsBalanced not_stopping s b = b
  stop_writes-IsBalanced closed_reads s b = b
  stop_writes-IsBalanced closed_writes s b = b
  stop_writes-IsBalanced closed_errors s b = b
  stop_writes-IsBalanced joined s b = b

  stop_errors-IsBalanced :
      (st : Stopping) (s : Scheduler D) → IsBalanced s → IsBalanced (stop_errors D st s)
  unfolding stop_errors
  stop_errors-IsBalanced not_stopping s b = b
  stop_errors-IsBalanced closed_reads s b = b
  stop_errors-IsBalanced closed_writes s b = b
  stop_errors-IsBalanced closed_errors s b = b
  stop_errors-IsBalanced joined s b = b

  stop_joined-IsBalanced :
      (st : Stopping) (s : Scheduler D) → IsBalanced s → IsBalanced (stop_joined D st s)
  unfolding stop_joined
  stop_joined-IsBalanced not_stopping s b = b
  stop_joined-IsBalanced closed_reads s b = b
  stop_joined-IsBalanced closed_writes s b = b
  stop_joined-IsBalanced closed_errors s b = λ k. ground (arith, b k)
  stop_joined-IsBalanced joined s b = b

  step-IsBalanced : (s : Scheduler D) (e : Step) → IsBalanced s → IsBalanced (step D s e)
  unfolding step submit_write_task
  step-IsBalanced s (submit_read t) b = submit_read_task-IsBalanced t s b
  step-IsBalanced s (submit_write t) b =
      IsBalanced-IsSame s (step D s (submit_write t)) (queued_write_frame s _) b
  step-IsBalanced s (put_read i) b = elim (Option-cases (pick i s.submitting)) [
    | inl e ↦ rw e b
    | inr ((t, rest), e) ↦ rw e (
        queued_read-IsBalanced t rest s _ (put-PutCase L t s.read_tasks)
          (λ k. tally-pick (has_id k) i s.submitting t rest e) b)
  ]
  step-IsBalanced s take_read b = take_read-IsBalanced _ s b
  step-IsBalanced s take_write b =
      IsBalanced-IsSame s (step D s take_write) (take_write_frame _ s) b
  step-IsBalanced s (finish_read i work) b = elim (Option-cases (pick i s.reading)) [
    | inl e ↦ rw e b
    | inr ((t, rest), e) ↦
        rw e (end_read-IsBalanced t rest work s (λ k. tally-pick (has_id k) i s.reading t rest e) b)
  ]
  step-IsBalanced s (finish_write i work) b =
      IsBalanced-IsSame s (step D s (finish_write i work)) (end_write_frame work s _) b
  step-IsBalanced s receive_error b =
      IsBalanced-IsSame s (step D s receive_error) (receive_frame s _) b
  step-IsBalanced s close_reads b = stop_reads-IsBalanced s.stopping s b
  step-IsBalanced s close_writes b = stop_writes-IsBalanced s.stopping s b
  step-IsBalanced s close_errors b = stop_errors-IsBalanced s.stopping s b
  step-IsBalanced s join b = stop_joined-IsBalanced s.stopping s b

  run-IsBalanced : (s : Scheduler D) (es : List Step) → IsBalanced s → IsBalanced (run D s es)
  unfolding run
  run-IsBalanced s [] b = b
  run-IsBalanced s (e ∷ es) b = run-IsBalanced (step D s e) es (step-IsBalanced s e b)

  init-IsBalanced : (r w : ℕ) → IsBalanced (init D r w)
  unfolding init new_unbounded_blocking_queue new_sync_set
  init-IsBalanced r w k = ground (arith, L.contents-new)

  -- From the initial state and whatever the interleaving, an id has at most one read task between
  -- its submission and the end of its work, and has one only if the running set holds the id.
  pub under_way_once :
      (r w : ℕ) (es : List Step) (k : String)
      → (under_way k (run D (init D r w) es) ≤ 1)
        × (under_way k (run D (init D r w) es) ≤ running k (run D (init D r w) es))
  under_way_once r w es k = ground (arith, run-IsBalanced (init D r w) es (init-IsBalanced r w) k)

  -- From the initial state, while the read queue is open, the running set holds an id exactly if
  -- one read task with the id is between its submission and the end of its work.
  pub under_way-eq-running :
      (r w : ℕ) (es : List Step) (k : String)
      → (run D (init D r w) es).read_tasks.closed ≡ false
      → under_way k (run D (init D r w) es) ≡ running k (run D (init D r w) es)
  under_way-eq-running r w es k opened =
      (run-IsBalanced (init D r w) es (init-IsBalanced r w) k).1 opened

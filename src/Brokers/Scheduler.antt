-- ===== src/Brokers/Scheduler.antt =====
-- internal/brokers/mp_task_scheduler.go: the read and write queues, the set of read tasks that are
-- under way, the error channel, and the workers, as a machine whose steps are the atomic actions of
-- the goroutines. A run is a list of steps in any order.
pub mod ReadTasks
pub mod Stopped
pub mod Scheduled
use mock_server.Prelude.{
  ℕ, zero, suc, ◌+◌, String, Bool, true, false, List, [], ◌∷◌, ◌++◌, Option, none, some, length,
  ltb, if◌then◌else◌,
}
use mock_server.Errors.{Error, canceled, deadline_exceeded}
use mock_server.Util.Queue
use mock_server.Util.Queue.{
  Deque, BlockingQueue, Pass, waits, returns, panics, new_unbounded_blocking_queue,
}
use mock_server.Util.Queue.Monitor.{pick}
use mock_server.Util.SyncSet
use mock_server.Util.SyncSet.{SyncSet}

-- A task as the scheduler sees it: its id. What its methods return is part of a step.
pub record Task : Type 0 where
  pub task_id : String

pub record TaskError : Type 0 where
  pub task_id : String
  pub error : Error

abbrev pub max_errors : ℕ
max_errors = 128

-- The results of a task's connectAndPrepare and of its read or write; `none` is `nil`.
pub record Work : Type 0 where
  pub prepared : Option Error
  pub worked : Option Error

-- qread and qwrite: the error, and whether the task's `close` is called.
unfoldable pub qread : Work → Option Error × Bool
qread work = elim work.prepared [ some e ↦ (some e, false) | none ↦ (work.worked, true) ]

pub data Step : Type 0 where
  submit_read submit_write : Task → Step
  put_read : ℕ → Step  -- a goroutine that has inserted its id puts its task into the queue
  take_read take_write : Step  -- a worker calls Get
  finish_read finish_write : ℕ → Work → Step  -- the work of a worker ends
  receive_error : Step  -- a reader of Errors()
  close_reads close_writes close_errors : Step  -- the calls of Stop
  join : Step  -- Stop's Wait returns

-- How far Stop has come; it is called once.
pub data Stopping : Type 0 where
  not_stopping closed_reads closed_writes closed_errors joined : Stopping

module _ (D : Deque Task) where
  pub record Scheduler : Type 0 where
    pub read_tasks : BlockingQueue D
    pub write_tasks : BlockingQueue D
    pub running_read_tasks : SyncSet
    pub errors : List TaskError  -- what the channel holds
    pub errors_closed : Bool
    pub submitting : List Task  -- submitReadTask between Insert and Put
    pub idle_readers : ℕ
    pub idle_writers : ℕ
    pub reading : List Task
    pub writing : List Task
    pub stopping : Stopping
    pub panicked : Bool

  unfoldable pub init : ℕ → ℕ → Scheduler
  init r_workers w_workers = record {
    read_tasks = new_unbounded_blocking_queue D;
    write_tasks = new_unbounded_blocking_queue D;
    running_read_tasks = SyncSet.new_sync_set;
    errors = [];
    errors_closed = false;
    submitting = [];
    idle_readers = r_workers;
    idle_writers = w_workers;
    reading = [];
    writing = [];
    stopping = not_stopping;
    panicked = false;
  }

  -- The select sends if there is room; a send on a closed channel panics.
  unfoldable pub submit_error : String → Error → Scheduler → Scheduler
  submit_error id e s =
      if s.errors_closed
      then record s { panicked = true }
      else if ltb (length s.errors) max_errors
      then record s { errors = s.errors ++ record { task_id = id; error = e } ∷ [] }
      else s

  abbrev pub report : String → Option Error → Scheduler → Scheduler
  report id none s = s
  report id (some canceled) s = s
  report id (some deadline_exceeded) s = s
  report id (some e) s = submit_error id e s

  queued_write : Scheduler → Pass (BlockingQueue D) Bool → Scheduler
  queued_write s waits = s
  queued_write s (returns q b) = record s { write_tasks = q }
  queued_write s panics = record s { panicked = true }

  -- submitWriteTask
  unfoldable pub submit_write_task : Task → Scheduler → Scheduler
  unfolding queued_write
  submit_write_task t s = queued_write s (Queue.put D t s.write_tasks)

  -- submitReadTask up to its Put: a task whose id is under way is dropped.
  unfoldable pub submit_read_task : Task → Scheduler → Scheduler
  submit_read_task t s =
      let (running, fresh) = SyncSet.insert t.task_id s.running_read_tasks in
      let s' = record s { running_read_tasks = running } in
      if fresh then record s' { submitting = t ∷ s.submitting } else s'

  abbrev pub queued_read : List Task → Scheduler → Pass (BlockingQueue D) Bool → Scheduler
  queued_read rest s waits = s
  queued_read rest s (returns q b) = record s { read_tasks = q; submitting = rest }
  queued_read rest s panics = record s { panicked = true }

  abbrev pub put_picked : Scheduler → Option (Task × List Task) → Scheduler
  put_picked s none = s
  put_picked s (some (t, rest)) = queued_read rest s (Queue.put D t s.read_tasks)

  -- What an idle worker does with what Get gives: it works, ends or sleeps.
  abbrev pub taken_read : ℕ → Scheduler → Pass (BlockingQueue D) (Option Task) → Scheduler
  taken_read idle s waits = s
  taken_read idle s (returns q (some t)) = record s {
    read_tasks = q;
    idle_readers = idle;
    reading = t ∷ s.reading;
  }
  taken_read idle s (returns q none) = record s { read_tasks = q; idle_readers = idle }
  taken_read idle s panics = record s { panicked = true }

  abbrev pub take_read_task : ℕ → Scheduler → Scheduler
  take_read_task zero s = s
  take_read_task (suc idle) s = taken_read idle s (Queue.get D s.read_tasks)

  taken_write : ℕ → Scheduler → Pass (BlockingQueue D) (Option Task) → Scheduler
  taken_write idle s waits = s
  taken_write idle s (returns q (some t)) = record s {
    write_tasks = q;
    idle_writers = idle;
    writing = t ∷ s.writing;
  }
  taken_write idle s (returns q none) = record s { write_tasks = q; idle_writers = idle }
  taken_write idle s panics = record s { panicked = true }

  take_write_task : ℕ → Scheduler → Scheduler
  unfolding taken_write
  take_write_task zero s = s
  take_write_task (suc idle) s = taken_write idle s (Queue.get D s.write_tasks)

  -- The rest of the loop of rWorkerRoutine: the error is submitted, then the id is removed.
  unfoldable pub end_read : Task → List Task → Work → Scheduler → Scheduler
  end_read t rest work s =
      let s' = report t.task_id (qread work).0 s in
      record s' {
        running_read_tasks = SyncSet.remove t.task_id s'.running_read_tasks;
        reading = rest;
        idle_readers = suc s'.idle_readers;
      }

  abbrev pub finish_picked : Work → Scheduler → Option (Task × List Task) → Scheduler
  finish_picked work s none = s
  finish_picked work s (some (t, rest)) = end_read t rest work s

  -- The rest of the loop of wWorkerRoutine.
  end_write : Work → Scheduler → Option (Task × List Task) → Scheduler
  end_write work s none = s
  end_write work s (some (t, rest)) =
      let s' = report t.task_id (qread work).0 s in
      record s' { writing = rest; idle_writers = suc s'.idle_writers }

  receive : Scheduler → List TaskError → Scheduler
  receive s [] = s
  receive s (e ∷ rest) = record s { errors = rest }

  -- The calls of Stop are made in their order: it closes the read queue, then the write queue, then the
  -- error channel.
  stop_reads : Stopping → Scheduler → Scheduler
  stop_reads not_stopping s = record s {
    read_tasks = Queue.close D true s.read_tasks;
    stopping = closed_reads;
  }
  stop_reads _ s = s

  stop_writes : Stopping → Scheduler → Scheduler
  stop_writes closed_reads s = record s {
    write_tasks = Queue.close D true s.write_tasks;
    stopping = closed_writes;
  }
  stop_writes _ s = s

  stop_errors : Stopping → Scheduler → Scheduler
  stop_errors closed_writes s = record s { errors_closed = true; stopping = closed_errors }
  stop_errors _ s = s

  -- The counter of `wg`: the workers that have not called Done, which are idle or at work.
  abbrev pub wait_group : Scheduler → ℕ
  wait_group s = s.idle_readers + s.idle_writers + length s.reading + length s.writing

  -- The Wait returns once the counter is zero.
  stop_joined : Stopping → Scheduler → Scheduler
  stop_joined closed_errors s = if ltb (wait_group s) 1 then record s { stopping = joined } else s
  stop_joined _ s = s

  unfoldable pub step : Scheduler → Step → Scheduler
  unfolding take_write_task end_write receive stop_reads stop_writes stop_errors stop_joined
  step s (submit_read t) = submit_read_task t s
  step s (submit_write t) = submit_write_task t s
  step s (put_read i) = put_picked s (pick i s.submitting)
  step s take_read = take_read_task s.idle_readers s
  step s take_write = take_write_task s.idle_writers s
  step s (finish_read i work) = finish_picked work s (pick i s.reading)
  step s (finish_write i work) = end_write work s (pick i s.writing)
  step s receive_error = receive s s.errors
  step s close_reads = stop_reads s.stopping s
  step s close_writes = stop_writes s.stopping s
  step s close_errors = stop_errors s.stopping s
  step s join = stop_joined s.stopping s

  unfoldable pub run : Scheduler → List Step → Scheduler
  run s [] = s
  run s (e ∷ es) = run (step s e) es

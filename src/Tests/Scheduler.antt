-- ===== src/Tests/Scheduler.antt =====
-- internal/brokers/mp_task_scheduler.go over deques that are lists.
use mock_server.Prelude.{◌≤◌, ◌≡◌, ◌↔◌, refl, List, [], ◌∷◌, ◌++◌, none, some, length}
use mock_server.Errors.{failed}
use mock_server.Util.Queue
use mock_server.Util.Queue.{
  Deque, DequeLaws, new_unbounded_blocking_queue, new_bounded_blocking_queue, is_full,
}
use mock_server.Util.Queue.Monitor.{pick}
use mock_server.Util.SyncSet.{new_sync_set, insert}
use mock_server.Brokers.Scheduler.{
  Task, Work, qread, Step, submit_read, put_read, take_read, take_write, finish_read, close_reads,
  close_writes, close_errors, join, init, step, run, submit_read_task, submit_error, end_read,
}
use mock_server.Brokers.Scheduler.ReadTasks.{under_way, running, under_way_once}
use mock_server.Brokers.Scheduler.Scheduled.{new_read_task, schedule, schedule-new_read_task-eq_iff}
use mock_server.Brokers.Registry.{Pool, kafka, get_name, new_kafka_message_pool}
use mock_server.Brokers.Registry.TaskIds.{reads, writes, task_id, SamePool, task_id-eq_iff}
use mock_server.Tests.Pools.{codec}

abbrev task_deque : Deque Task
task_deque = record {
  Rep = List Task;
  new = [];
  push_back = λ x d. d ++ x ∷ [];
  pop_front = elim [ [] ↦ none | x ∷ xs ↦ some (x, xs) ];
  len = length;
  clear = λ _. [];
}

abbrev task_laws : DequeLaws task_deque
task_laws = record {
  contents = λ d. d;
  contents-new = refl;
  contents-push_back = λ x d. refl;
  pop_front_cons = λ d x xs e. (xs, rw e refl, refl);
  len_lem = λ d. refl;
  contents-clear = λ d. refl;
}

abbrev pool_read : Task
pool_read = record { task_id = "kafka:p:t:read" }

-- A task is submitted twice, and taken by a worker.
abbrev submitted : List Step
submitted = submit_read pool_read ∷ submit_read pool_read ∷ put_read 0 ∷ take_read ∷ []

abbrev fails : Work
fails = record { prepared = none; worked = some (failed "no broker") }

machine : Unit {0}
unfolding init run step qread new_unbounded_blocking_queue new_bounded_blocking_queue new_sync_set
    insert submit_read_task Queue.put Queue.get is_full pick submit_error end_read
machine = tt

under_way_once_example :
    let s = run task_deque (init task_deque 2 2) submitted in
    (under_way task_laws "kafka:p:t:read" s ≤ 1)
    × (under_way task_laws "kafka:p:t:read" s ≤ running task_laws "kafka:p:t:read" s)
under_way_once_example = under_way_once task_laws 2 2 submitted "kafka:p:t:read"

-- The task ends, Stop is called, and both workers find their queue closed.
abbrev until_stopped : List Step
until_stopped =
    submitted
    ++ finish_read 0 fails
      ∷ close_reads
      ∷ close_writes
      ∷ take_read
      ∷ close_errors
      ∷ take_write
      ∷ join
      ∷ []

abbrev first : Pool codec
first = kafka (new_kafka_message_pool "p" "t")

abbrev second : Pool codec
second = kafka (new_kafka_message_pool "p" "u:v")

task_id-eq_iff_example :
    (task_id codec reads first ≡ task_id codec writes second)
    ↔ ((reads ≡ writes) × SamePool codec first second)
unfolding get_name new_kafka_message_pool
task_id-eq_iff_example = task_id-eq_iff codec reads writes first second (refl, tt) (refl, tt)

schedule-new_read_task-eq_iff_example :
    let s = schedule codec task_deque (new_read_task codec first) (init task_deque 1 1) in
    (schedule codec task_deque (new_read_task codec second) s ≡ s) ↔ SamePool codec first second
unfolding init new_sync_set get_name new_kafka_message_pool
schedule-new_read_task-eq_iff_example =
    schedule-new_read_task-eq_iff codec task_deque first second (init task_deque 1 1) (refl, tt)
      (refl, tt) refl

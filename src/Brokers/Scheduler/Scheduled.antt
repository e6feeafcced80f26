-- ===== src/Brokers/Scheduler/Scheduled.antt =====
-- internal/brokers/rabbitmq.go and kafka.go, NewReadTask, NewWriteTask and Schedule: the tasks of pools
-- as the scheduler gets them.
use mock_server.Prelude.{
  ◌≡◌, ◌↔◌, refl, ap, inl, inr, String, true, false, List, [], ◌∷◌, length, ◌==◌, if◌then◌else◌,
  arith, eq_iff, Bool-cases,
}
use mock_server.Util.Queue.{Deque}
use mock_server.Util.SyncSet.{contains, contains-insert, insert-contains, insert}
use mock_server.Brokers.Registry.{Codec, Pool, get_name, read_task_id, write_task_id}
use mock_server.Brokers.Registry.TaskIds.{reads, IsPlain, SamePool, task_id-eq_iff}
use mock_server.Brokers.Scheduler.{Task, Scheduler, submit_read_task, submit_write_task}

module _ (J : Codec) where
  -- The tasks of either broker; a task holds its pool and messages.
  pub data PoolTask : Type 0 where
    read_task : Pool J → List String → PoolTask
    write_task : Pool J → List String → PoolTask

  unfoldable pub new_read_task : Pool J → PoolTask
  new_read_task mp = read_task mp []

  unfoldable pub new_write_task : Pool J → List String → PoolTask
  new_write_task mp msgs = write_task mp msgs

  get_task_id : PoolTask → String
  get_task_id (read_task mp msgs) = read_task_id J mp
  get_task_id (write_task mp msgs) = write_task_id J mp

  -- A read task is submitted up to its Put.
  unfoldable pub schedule : (D : Deque Task) → PoolTask → Scheduler D → Scheduler D
  unfolding get_task_id
  schedule D (read_task mp msgs) s =
      submit_read_task D (record { task_id = get_task_id (read_task mp msgs) }) s
  schedule D (write_task mp msgs) s =
      submit_write_task D (record { task_id = get_task_id (write_task mp msgs) }) s

  module _ (D : Deque Task) where
    submit_read_task-fresh :
        (t : Task) (s : Scheduler D)
        → contains t.task_id s.running_read_tasks ≡ false
        → (submit_read_task D t s).submitting ≡ t ∷ s.submitting
    unfolding submit_read_task
    submit_read_task-fresh t s h = ground (arith, insert-contains t.task_id s.running_read_tasks)

    submit_read_task-running :
        (t : Task) (s : Scheduler D)
        → contains t.task_id s.running_read_tasks ≡ true
        → submit_read_task D t s ≡ s
    unfolding submit_read_task insert
    submit_read_task-running t s h = rw h refl

    contains-submit_read_task :
        (t : Task) (k : String) (s : Scheduler D)
        → contains k (submit_read_task D t s).running_read_tasks
          ≡ (if t.task_id == k then true else contains k s.running_read_tasks)
    unfolding submit_read_task
    contains-submit_read_task t k s = ground (
      arith,
      contains-insert t.task_id k s.running_read_tasks,
      insert-contains t.task_id s.running_read_tasks,
    )

    -- If no name has a colon and no read task of the second pool is under way, then after a read
    -- task of the first pool has been scheduled, scheduling one of the second pool is ignored
    -- exactly if both pools have the same broker, name and queue.
    pub schedule-new_read_task-eq_iff :
        (p p' : Pool J) (s : Scheduler D)
        → IsPlain (get_name J p)
        → IsPlain (get_name J p')
        → contains (read_task_id J p') s.running_read_tasks ≡ false
        → (schedule D (new_read_task p') (schedule D (new_read_task p) s)
            ≡ schedule D (new_read_task p) s)
          ↔ SamePool J p p'
    unfolding schedule new_read_task
    schedule-new_read_task-eq_iff p p' s n n' idle =
        let id = read_task_id J p in
        let id' = read_task_id J p' in
        let t : Task = record { task_id = id } in
        let t' : Task = record { task_id = id' } in
        let s1 = submit_read_task D t s in
        let held = contains-submit_read_task t id' s in
        (
          λ dropped. elim (Bool-cases (id == id')) [
            | inl e ↦ ((task_id-eq_iff J reads reads p p' n n').0 ((eq_iff id id').0 e)).1
            | inr e ↦
                let free : contains id' s1.running_read_tasks ≡ false = ground (arith, held) in
                let longer = ap length (submit_read_task-fresh t' s1 free) in
                let same = ap (λ s. length s.submitting) dropped in
                absurd (omega (arith, longer, same))
          ],
          λ alike.
              let e : id ≡ id' = (task_id-eq_iff J reads reads p p' n n').1 (refl, alike) in
              submit_read_task-running t' s1 (ground (arith, held, eq_iff id id')),
        )

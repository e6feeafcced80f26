-- ===== src/Brokers/Scheduler/Stopped.antt =====
-- internal/brokers/mp_task_scheduler.go: what Stop leaves behind.
use mock_server.Prelude.{◌≡◌, []}
use mock_server.Util.Queue.{Deque}
use mock_server.Brokers.Scheduler.{Task, joined, Scheduler}

module _ (D : Deque Task) where
  -- Once Stop has returned no worker is left, and no task is at work.
  abbrev IsQuiet : Scheduler D → Type 0
  IsQuiet s =
      s.stopping ≡ joined
      → (s.idle_readers ≡ 0) × (s.idle_writers ≡ 0) × (s.reading ≡ []) × (s.writing ≡ [])

-- ===== src/Util/Queue/Monitor.antt =====
-- internal/util/blocking_queue.go with its goroutines: who sleeps on which condition variable, who
-- has been woken and waits for the mutex, and what the calls have returned so far.
-- A run is a list of events, each of them one critical section. Go says that `Signal` wakes one
-- sleeper and not which, so an event that signals carries the choice, a position in the line.
use mock_server.Prelude.{
  ℕ, zero, suc, ◌+◌, Bool, true, false, List, [], ◌∷◌, ◌++◌, Option, none, some,
}
use mock_server.Util.Queue.{Deque, BlockingQueue, Pass, waits, returns, panics, put, get, close}

-- The chosen entry and the rest; a position past the end means the last entry.
unfoldable pub pick {ℓ} : {A : Type ℓ} → ℕ → List A → Option (A × List A)
pick i [] = none
pick i (x ∷ []) = some (x, [])
pick zero (x ∷ y ∷ l) = some (x, y ∷ l)
pick (suc i) (x ∷ y ∷ l) = elim (pick i (y ∷ l)) [
  | none ↦ some (x, y ∷ l)
  | some (z, r) ↦ some (z, x ∷ r)
]

pub data Event (T : Type 0) : Type 0 where
  put_call : T → Event T  -- a goroutine calls Put
  put_again : ℕ → Event T  -- a woken Put goes round its loop
  get_call : ℕ → Event T  -- a goroutine calls Get
  get_again : ℕ → Event T  -- a woken Get goes round its loop
  close_call : Bool → Event T  -- a goroutine calls Close

module _ {T : Type 0} (D : Deque T) where
  pub record Monitor : Type 0 where
    pub queue : BlockingQueue D
    pub put_asleep : List T  -- what each Put that sleeps on `full` wants to add
    pub put_woken : List T
    pub get_asleep : ℕ  -- how many Gets sleep on `empty`
    pub get_woken : ℕ
    pub accepted : List T  -- what the Puts that returned true have added, in order
    pub refused : List T  -- what the Puts that returned false did not add
    pub delivered : List T  -- what the Gets have returned, in order
    pub ended : ℕ  -- how many Gets returned None
    pub panicked : Bool

  -- `q.empty.Signal()`
  unfoldable pub wake_get : ℕ → Monitor → Monitor
  wake_get zero m = m
  wake_get (suc n) m = record m { get_asleep = n; get_woken = suc m.get_woken }

  unfoldable pub move_put : Monitor → Option (T × List T) → Monitor
  move_put m none = m
  move_put m (some (x, rest)) = record m { put_asleep = rest; put_woken = x ∷ m.put_woken }

  -- `q.full.Signal()`
  unfoldable pub wake_put : ℕ → Monitor → Monitor
  unfolding move_put
  wake_put w m = move_put m (pick w m.put_asleep)

  unfoldable pub after_put : T → Monitor → Pass (BlockingQueue D) Bool → Monitor
  after_put x m waits = record m { put_asleep = m.put_asleep ++ x ∷ [] }
  after_put x m (returns q true) =
      wake_get m.get_asleep (record m { queue = q; accepted = m.accepted ++ x ∷ [] })
  after_put x m (returns q false) = record m { queue = q; refused = m.refused ++ x ∷ [] }
  after_put x m panics = record m { panicked = true }

  unfoldable pub run_put : T → Monitor → Monitor
  unfolding after_put wake_get
  run_put x m = after_put x m (put D x m.queue)

  unfoldable pub after_get : ℕ → Monitor → Pass (BlockingQueue D) (Option T) → Monitor
  after_get w m waits = record m { get_asleep = suc m.get_asleep }
  after_get w m (returns q (some x)) =
      wake_put w (record m { queue = q; delivered = m.delivered ++ x ∷ [] })
  after_get w m (returns q none) = record m { queue = q; ended = suc m.ended }
  after_get w m panics = record m { panicked = true }

  unfoldable pub run_get : ℕ → Monitor → Monitor
  unfolding after_get wake_put
  run_get w m = after_get w m (get D m.queue)

  unfoldable pub put_once_more : Monitor → Option (T × List T) → Monitor
  put_once_more m none = m
  put_once_more m (some (x, rest)) = run_put x (record m { put_woken = rest })

  unfoldable pub get_once_more : ℕ → ℕ → Monitor → Monitor
  get_once_more w zero m = m
  get_once_more w (suc n) m = run_get w (record m { get_woken = n })

  -- `q.empty.Broadcast()` wakes every Get; no Put is woken.
  unfoldable pub run_close : Bool → Monitor → Monitor
  run_close clear m = record m {
    queue = close D clear m.queue;
    get_asleep = 0;
    get_woken = m.get_woken + m.get_asleep;
  }

  unfoldable pub step : Monitor → Event T → Monitor
  unfolding put_once_more get_once_more
  step m (put_call x) = run_put x m
  step m (put_again i) = put_once_more m (pick i m.put_woken)
  step m (get_call w) = run_get w m
  step m (get_again w) = get_once_more w m.get_woken m
  step m (close_call clear) = run_close clear m

  unfoldable pub run : Monitor → List (Event T) → Monitor
  run m [] = m
  run m (e ∷ es) = run (step m e) es

  unfoldable pub start : BlockingQueue D → Monitor
  start q = record {
    queue = q;
    put_asleep = [];
    put_woken = [];
    get_asleep = 0;
    get_woken = 0;
    accepted = [];
    refused = [];
    delivered = [];
    ended = 0;
    panicked = false;
  }

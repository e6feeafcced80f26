-- ===== src/Util/Queue.antt =====
-- internal/util/blocking_queue.go: one critical section of each method.
-- A method holds `mtx` from its first line to its return, or to the `Wait` of its loop, which gives
-- the mutex back; so one pass through a method's body is an atomic step on the fields. What happens
-- to the goroutines at `Wait`, `Signal` and `Broadcast` is modelled in Util/Queue/Monitor.antt.
pub mod Passes
pub mod Monitor
pub mod Wakeups
pub mod Fifo
pub mod Shutdown
use mock_server.Prelude.{
  ℕ, ◌≡◌, Bool, true, false, not, ◌&&◌, List, [], ◌∷◌, ◌++◌, Option, none, some, ltb, leb, nat_eq,
  length, if◌then◌else◌,
}

-- github.com/gammazero/deque, which the queue keeps its elements in. `pop_front` is `none` where
-- the library panics.
pub record Deque (T : Type 0) : Type 1 where
  pub Rep : Type 0
  pub new : Rep
  pub push_back : T → Rep → Rep
  pub pop_front : Rep → Option (T × Rep)
  pub len : Rep → ℕ
  pub clear : Rep → Rep

-- The documented behaviour of the deque: it is a sequence.
pub record DequeLaws {T : Type 0} (D : Deque T) : Type 0 where
  pub contents : D.Rep → List T
  pub contents-new : contents D.new ≡ []
  pub contents-push_back : (x : T) (d : D.Rep) → contents (D.push_back x d) ≡ contents d ++ x ∷ []
  pub pop_front_cons :
      (d : D.Rep) (x : T) (xs : List T)
      → contents d ≡ x ∷ xs
      → (rest : D.Rep) × (D.pop_front d ≡ some (x, rest)) × (contents rest ≡ xs)
  pub len_lem : (d : D.Rep) → D.len d ≡ length (contents d)
  pub contents-clear : (d : D.Rep) → contents (D.clear d) ≡ []

-- Go's int, as far as the queue uses it: `negsuc n` is -(n + 1).
pub data ℤ : Type 0 where
  pos : ℕ → ℤ
  negsuc : ℕ → ℤ

-- What one pass through a method's body does.
pub data Pass (Q R : Type 0) : Type 0 where
  waits : Pass Q R
  returns : Q → R → Pass Q R
  panics : Pass Q R

module _ {T : Type 0} (D : Deque T) where
  pub record BlockingQueue : Type 0 where
    pub max_size : ℤ
    pub closed : Bool
    pub elems : D.Rep

  -- `max_size > 0 && len >= max_size`
  abbrev pub full_at : ℤ → ℕ → Bool
  full_at (pos n) k = ltb 0 n && leb n k
  full_at (negsuc n) k = false

  unfoldable pub is_full : BlockingQueue → Bool
  is_full q = full_at q.max_size (D.len q.elems)

  -- `returns q true` comes with `q.empty.Signal()`.
  unfoldable pub put : T → BlockingQueue → Pass BlockingQueue Bool
  unfolding is_full
  put el q =
      if not q.closed && is_full q
      then waits
      else if q.closed
      then returns q false
      else returns (record q { elems = D.push_back el q.elems }) true

  take_front : BlockingQueue → Option (T × D.Rep) → Pass BlockingQueue (Option T)
  take_front q none = panics
  take_front q (some (el, rest)) = returns (record q { elems = rest }) (some el)

  -- `returns q (some el)` comes with `q.full.Signal()`.
  unfoldable pub get : BlockingQueue → Pass BlockingQueue (Option T)
  unfolding take_front
  get q =
      if not q.closed && nat_eq (D.len q.elems) 0
      then waits
      else if not (nat_eq (D.len q.elems) 0)
      then take_front q (D.pop_front q.elems)
      else returns q none

  -- It comes with `q.empty.Broadcast()`, and with no signal to `q.full`.
  unfoldable pub close : Bool → BlockingQueue → BlockingQueue
  close clear q =
      let shut = record q { closed = true } in
      if clear then record shut { elems = D.clear q.elems } else shut

  unfoldable pub is_closed : BlockingQueue → Bool
  is_closed q = q.closed

  unfoldable pub new_bounded_blocking_queue : ℤ → BlockingQueue
  new_bounded_blocking_queue max_size = record {
    max_size = max_size;
    closed = false;
    elems = D.new;
  }

  unfoldable pub new_unbounded_blocking_queue : BlockingQueue
  unfolding new_bounded_blocking_queue
  new_unbounded_blocking_queue = new_bounded_blocking_queue (negsuc 0)

-- ===== src/Util/Queue/Wakeups.antt =====
-- internal/util/blocking_queue.go: nobody sleeps through what it waits for.
use mock_server.Prelude.{
  ℕ, zero, suc, ◌+◌, ◌≤◌, ◌≡◌, refl, ap, ◌⊎◌, ◌≢◌, inl, inr, Bool, true, false, List, [], ◌∷◌,
  Option, none, arith, Option-cases, length, length-append,
}
use mock_server.Util.Queue.{
  Deque, DequeLaws, BlockingQueue, Pass, ℤ, pos, negsuc, full_at, close, new_bounded_blocking_queue,
}
use mock_server.Util.Queue.Passes.{items, IsFull, PutCase, GetCase, put-PutCase, get-GetCase}
use mock_server.Util.Tally.{length-pick}
use mock_server.Util.Queue.Monitor.{
  Event, put_call, put_again, get_call, get_again, close_call, Monitor, pick, after_put, after_get,
  run_put, run_get, run_close, get_once_more, wake_get, wake_put, step, run, start,
}

module _ {A : Type 0} where
  pub pick-ne-none : (i : ℕ) (l : List A) → pick i l ≡ none → l ≡ []
  unfolding pick
  pick-ne-none i [] h = refl
  pick-ne-none i (y ∷ []) h = cc
  pick-ne-none zero (y ∷ z ∷ l) h = cc
  pick-ne-none (suc i) (y ∷ z ∷ l) h = ground arith

module _ {T : Type 0} (D : Deque T) where
  -- The capacity is never exceeded; a size that is not positive means no capacity.
  abbrev pub Fits : ℤ → ℕ → Type 0
  Fits (pos n) k = (n ≡ 0) ⊎ (k ≤ n)
  Fits (negsuc n) k = Unit {0}

  full_at_mono : (z : ℤ) (k j : ℕ) → k ≤ j → full_at D z k ≡ true → full_at D z j ≡ true
  full_at_mono (pos n) k j h e = ground arith
  full_at_mono (negsuc n) k j h e = cc

  Fits_room : (z : ℤ) (k : ℕ) → Fits z k → full_at D z k ≡ false → Fits z (k + 1)
  Fits_room (pos n) k h e = ground arith
  Fits_room (negsuc n) k h e = tt

  Fits_less : (z : ℤ) (k : ℕ) → Fits z (suc k) → Fits z k
  Fits_less (pos n) k h = ground arith
  Fits_less (negsuc n) k h = tt

  Fits_zero : (z : ℤ) → Fits z 0
  Fits_zero (pos n) = ground arith
  Fits_zero (negsuc n) = tt

module _ {T : Type 0} {D : Deque T} (L : DequeLaws D) (z : ℤ) where
  -- `puts` and `gets` count the goroutines that were woken and are now inside their loop.
  pub record IsAwake (puts gets : ℕ) (m : Monitor D) : Type 0 where
    pub sized : m.queue.max_size ≡ z
    -- the queue holds no more than it may
    pub fits : Fits D z (length (items L m.queue))
    -- no Get sleeps on a closed queue
    pub gets_end : m.queue.closed ≡ true → m.get_asleep ≡ 0
    -- while a Get sleeps, every element has a woken Get coming for it
    pub gets_served : (m.get_asleep ≡ 0) ⊎ (length (items L m.queue) ≤ m.get_woken + gets)
    -- while a Put sleeps on an open queue, every free place has a woken Put coming for it
    pub puts_served :
        m.queue.closed ≡ false
        → (m.put_asleep ≡ [])
          ⊎ (full_at D z (length (items L m.queue) + length m.put_woken + puts) ≡ true)
    pub calm : m.panicked ≡ false

  after_put-IsAwake :
      (x : T) (m : Monitor D) {p : Pass (BlockingQueue D) Bool}
      → PutCase L x m.queue p
      → IsAwake 1 0 m
      → IsAwake 0 0 (after_put D x m p)
  unfolding after_put wake_get
  after_put-IsAwake x m (PutCase.sleeps o f) v = ground (
    arith,
    full_at_mono D z (length (items L m.queue)) (length (items L m.queue) + length m.put_woken + 0),
  )
  after_put-IsAwake x m (PutCase.shut c) v = ground arith
  after_put-IsAwake x m (PutCase.adds q' o f i s c) v = ground (
    arith,
    ap (length {A = T}) i,
    length-append (items L m.queue) (x ∷ []),
    Fits_room D z (length (items L m.queue)) v.fits (rw (← v.sized) f),
  )

  after_get-IsAwake :
      (w : ℕ) (m : Monitor D) {p : Pass (BlockingQueue D) (Option T)}
      → GetCase L m.queue p
      → IsAwake 0 1 m
      → IsAwake 0 0 (after_get D w m p)
  unfolding after_get wake_put
  after_get-IsAwake w m (GetCase.sleeps o e) v = ground arith
  after_get-IsAwake w m (GetCase.ends c e) v = ground arith
  after_get-IsAwake w m (GetCase.takes q' x i s c) v =
      let shorter = ap (length {A = T}) i in
      let fits = Fits_less D z (length (items L q')) in
      elim (Option-cases (pick w m.put_asleep)) [
        | inl e ↦ rw e (ground (arith, shorter, fits, pick-ne-none w m.put_asleep e))
        | inr ((y, r), e) ↦ rw e (
            ground (
              arith,
              shorter,
              fits,
              length-pick w m.put_asleep y r e,
              full_at_mono D z (length (items L m.queue) + length m.put_woken + 0)
                  (length (items L q') + suc (length m.put_woken) + 0),
            ))
      ]

  IsAwake-called : {m : Monitor D} → IsAwake 0 0 m → IsAwake 1 0 m
  IsAwake-called {m} v = ground (
    arith,
    full_at_mono D z (length (items L m.queue) + length m.put_woken + 0)
        (length (items L m.queue) + length m.put_woken + 1),
  )

  run_put-IsAwake : (x : T) (m : Monitor D) → IsAwake 1 0 m → IsAwake 0 0 (run_put D x m)
  unfolding run_put
  run_put-IsAwake x m v = after_put-IsAwake x m (put-PutCase L x m.queue) v

  run_get-IsAwake : (w : ℕ) (m : Monitor D) → IsAwake 0 1 m → IsAwake 0 0 (run_get D w m)
  unfolding run_get
  run_get-IsAwake w m v = after_get-IsAwake w m (get-GetCase L m.queue) v

  run_close-IsAwake :
      (clear : Bool) (m : Monitor D) → IsAwake 0 0 m → IsAwake 0 0 (run_close D clear m)
  unfolding run_close close
  run_close-IsAwake true m v = ground (arith, Fits_zero D z, L.contents-clear m.queue.elems)
  run_close-IsAwake false m v = ground arith

  -- Every event keeps the queue within its capacity, and no sleeper misses its wake-up.
  pub step-IsAwake : (m : Monitor D) (e : Event T) → IsAwake 0 0 m → IsAwake 0 0 (step D m e)
  unfolding step
  step-IsAwake m (put_call x) v = run_put-IsAwake x m (IsAwake-called v)
  step-IsAwake m (put_again i) v = elim (Option-cases (pick i m.put_woken)) [
    | inl e ↦ rw e v
    | inr ((x, r), e) ↦ rw e (run_put-IsAwake x _ (ground (arith, length-pick i m.put_woken x r e)))
  ]
  step-IsAwake m (get_call w) v = run_get-IsAwake w m (ground arith)
  step-IsAwake m (get_again w) v = again m.get_woken refl
    where
      again : (n : ℕ) → m.get_woken ≡ n → IsAwake 0 0 (get_once_more D w n m)
      again zero e = v
      again (suc n) e = run_get-IsAwake w _ (ground arith)
  step-IsAwake m (close_call clear) v = run_close-IsAwake clear m v

  run-IsAwake : (m : Monitor D) (es : List (Event T)) → IsAwake 0 0 m → IsAwake 0 0 (run D m es)
  unfolding run
  run-IsAwake m [] v = v
  run-IsAwake m (e ∷ es) v = run-IsAwake (step D m e) es (step-IsAwake m e v)

  start-IsAwake : IsAwake 0 0 (start D (new_bounded_blocking_queue D z))
  unfolding start new_bounded_blocking_queue
  start-IsAwake = ground (arith, Fits_zero D z, L.contents-new)

  empty_of_length : (l : List T) → length l ≤ 0 → l ≡ []
  empty_of_length [] h = refl
  empty_of_length (x ∷ l) h = absurd (omega arith)

  -- What a run of the program makes of a new queue.
  abbrev pub reached : List (Event T) → Monitor D
  reached es = run D (start D (new_bounded_blocking_queue D z)) es

  reached-IsAwake : (es : List (Event T)) → IsAwake 0 0 (reached es)
  reached-IsAwake es = run-IsAwake _ es start-IsAwake

  -- Whatever the goroutines do and whichever sleeper each Signal wakes, `PopFront` is never called
  -- on an empty deque, and the queue never holds more than a positive `max_size`.
  pub reached-Fits :
      (es : List (Event T))
      → ((reached es).panicked ≡ false) × Fits D z (length (items L (reached es).queue))
  reached-Fits es = let v = reached-IsAwake es in (v.calm, v.fits)

  -- No Get misses its wake-up: in any state that a run reaches, if a Get sleeps and no woken Get is
  -- left to run, then the queue is open and empty.
  pub get_asleep_on_empty :
      (es : List (Event T))
      → (reached es).get_woken ≡ 0
      → (reached es).get_asleep ≢ 0
      → ((reached es).queue.closed ≡ false) × (items L (reached es).queue ≡ [])
  get_asleep_on_empty es g asleep =
      let v = reached-IsAwake es in
      (ground (arith, asleep), empty_of_length _ (ground (arith, asleep)))

  -- No Put misses its wake-up on an open queue: in any state that a run reaches, if a Put sleeps,
  -- no woken Put is left to run and the queue is open, then the queue is full.
  put_asleep-IsFull :
      (es : List (Event T))
      → (reached es).put_woken ≡ []
      → (reached es).put_asleep ≢ []
      → (reached es).queue.closed ≡ false
      → IsFull L (reached es).queue true
  put_asleep-IsFull es p asleep o =
      let v = reached-IsAwake es in
      ground (
        arith,
        asleep,
        full_at_mono D z (length (items L (reached es).queue) + length (reached es).put_woken + 0)
            (length (items L (reached es).queue)),
      )

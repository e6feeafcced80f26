-- ===== src/Util/Queue/Fifo.antt =====
-- internal/util/blocking_queue.go: what goes in comes out, in the same order.
use mock_server.Prelude.{
  ℕ, zero, suc, ◌≡◌, ◌≢◌, refl, sym, ap, ◌∙◌, inl, inr, Bool, true, false, List, [], ◌∷◌, ◌++◌,
  Option, none, some, append_assoc, Option-cases, All,
}
use mock_server.Util.Queue.{
  Deque, DequeLaws, BlockingQueue, Pass, ℤ, close, new_bounded_blocking_queue,
}
use mock_server.Util.Queue.Passes.{items, PutCase, GetCase, put-PutCase, get-GetCase}
use mock_server.Util.Queue.Monitor.{
  Event, put_call, put_again, get_call, get_again, close_call, Monitor, pick, after_put, after_get,
  run_put, run_get, run_close, wake_get, move_put, wake_put, get_once_more, step, run, start,
}
use mock_server.Util.Queue.Wakeups.{reached}

module _ {T : Type 0} {D : Deque T} (L : DequeLaws D) where
  abbrev IsFifo : Monitor D → Type 0
  IsFifo m = m.accepted ≡ m.delivered ++ items L m.queue

  wake_get-IsFifo : (n : ℕ) (m : Monitor D) → IsFifo m → IsFifo (wake_get D n m)
  unfolding wake_get
  wake_get-IsFifo zero m v = v
  wake_get-IsFifo (suc n) m v = v

  move_put-IsFifo : (o : Option (T × List T)) (m : Monitor D) → IsFifo m → IsFifo (move_put D m o)
  unfolding move_put
  move_put-IsFifo none m v = v
  move_put-IsFifo (some (x, rest)) m v = v

  after_put-IsFifo :
      (x : T) (m : Monitor D) {p : Pass (BlockingQueue D) Bool}
      → PutCase L x m.queue p
      → IsFifo m
      → IsFifo (after_put D x m p)
  unfolding after_put
  after_put-IsFifo x m (PutCase.sleeps o f) v = v
  after_put-IsFifo x m (PutCase.shut c) v = v
  after_put-IsFifo x m (PutCase.adds q' o f i s c) v =
      wake_get-IsFifo m.get_asleep _
        (rw (i, v) (append_assoc m.delivered (items L m.queue) (x ∷ [])))

  after_get-IsFifo :
      (w : ℕ) (m : Monitor D) {p : Pass (BlockingQueue D) (Option T)}
      → GetCase L m.queue p
      → IsFifo m
      → IsFifo (after_get D w m p)
  unfolding after_get wake_put
  after_get-IsFifo w m (GetCase.sleeps o e) v = v
  after_get-IsFifo w m (GetCase.ends c e) v = v
  after_get-IsFifo w m (GetCase.takes q' x i s c) v =
      move_put-IsFifo (pick w m.put_asleep) _
        (v ∙ ap (◌++◌ m.delivered) i ∙ sym (append_assoc m.delivered (x ∷ []) (items L q')))

  step-IsFifo : (m : Monitor D) (e : Event T) → e ≢ close_call true → IsFifo m → IsFifo (step D m e)
  unfolding step run_put run_get run_close close
  step-IsFifo m (put_call x) h v = after_put-IsFifo x m (put-PutCase L x m.queue) v
  step-IsFifo m (put_again i) h v = elim (Option-cases (pick i m.put_woken)) [
    | inl e ↦ rw e v
    | inr ((x, r), e) ↦ rw e (after_put-IsFifo x _ (put-PutCase L x m.queue) v)
  ]
  step-IsFifo m (get_call w) h v = after_get-IsFifo w m (get-GetCase L m.queue) v
  step-IsFifo m (get_again w) h v = again m.get_woken
    where
      again : (n : ℕ) → IsFifo (get_once_more D w n m)
      again zero = v
      again (suc n) = after_get-IsFifo w _ (get-GetCase L m.queue) v
  step-IsFifo m (close_call true) h v = absurd (h refl)
  step-IsFifo m (close_call false) h v = v

  run-IsFifo :
      (m : Monitor D) (es : List (Event T))
      → All (λ e. e ≢ close_call true) es
      → IsFifo m
      → IsFifo (run D m es)
  unfolding run
  run-IsFifo m [] h v = v
  run-IsFifo m (e ∷ es) h v = run-IsFifo (step D m e) es h.1 (step-IsFifo m e h.0 v)

  start-IsFifo : (z : ℤ) → IsFifo (start D (new_bounded_blocking_queue D z))
  unfolding start new_bounded_blocking_queue
  start-IsFifo z = sym L.contents-new

  -- In any run without `Close(true)`, what the successful Puts have added, in order, is what the
  -- Gets have returned, in order, followed by what the queue still holds.
  pub accepted-eq-delivered-append-items :
      (z : ℤ) (es : List (Event T))
      → All (λ e. e ≢ close_call true) es
      → (reached L z es).accepted ≡ (reached L z es).delivered ++ items L (reached L z es).queue
  accepted-eq-delivered-append-items z es h = run-IsFifo _ es h (start-IsFifo z)

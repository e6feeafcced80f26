-- ===== src/Util/Queue/Shutdown.antt =====
-- internal/util/blocking_queue.go: what Close does to the goroutines that sleep.
-- `Close` broadcasts on `empty` and not on `full`. A Get is let go; a Put is not.
use mock_server.Prelude.{
  ℕ, zero, suc, ◌≡◌, refl, Bool, true, false, List, [], ◌∷◌, Option, none, some, arith,
}
use mock_server.Util.Queue.{Deque, DequeLaws, BlockingQueue, Pass, close}
use mock_server.Util.Queue.Passes.{items, PutCase, GetCase, put-PutCase, get-GetCase}
use mock_server.Util.Queue.Monitor.{
  Event, put_call, put_again, get_call, get_again, close_call, Monitor, pick, after_put, after_get,
  run_put, run_get, run_close, put_once_more, get_once_more, step, run,
}

module _ {T : Type 0} {D : Deque T} (L : DequeLaws D) (sleepers : List T) where
  record IsStranded (m : Monitor D) : Type 0 where
    closed : m.queue.closed ≡ true
    empty : items L m.queue ≡ []
    asleep : m.put_asleep ≡ sleepers

  after_put-IsStranded :
      (x : T) (m : Monitor D) {p : Pass (BlockingQueue D) Bool}
      → PutCase L x m.queue p
      → IsStranded m
      → IsStranded (after_put D x m p)
  unfolding after_put
  after_put-IsStranded x m (PutCase.sleeps o f) v = ground arith
  after_put-IsStranded x m (PutCase.shut c) v = record {
    closed = v.closed;
    empty = v.empty;
    asleep = v.asleep;
  }
  after_put-IsStranded x m (PutCase.adds q' o f i s c) v = ground arith

  after_get-IsStranded :
      (w : ℕ) (m : Monitor D) {p : Pass (BlockingQueue D) (Option T)}
      → GetCase L m.queue p
      → IsStranded m
      → IsStranded (after_get D w m p)
  unfolding after_get
  after_get-IsStranded w m (GetCase.sleeps o e) v = ground arith
  after_get-IsStranded w m (GetCase.ends c e) v = record {
    closed = v.closed;
    empty = v.empty;
    asleep = v.asleep;
  }
  after_get-IsStranded w m (GetCase.takes q' x i s c) v = ground arith

  step-IsStranded : (m : Monitor D) (e : Event T) → IsStranded m → IsStranded (step D m e)
  unfolding step run_put run_get run_close close
  step-IsStranded m (put_call x) v = after_put-IsStranded x m (put-PutCase L x m.queue) v
  step-IsStranded m (put_again i) v = again (pick i m.put_woken)
    where
      again : (o : Option (T × List T)) → IsStranded (put_once_more D m o)
      again none = v
      again (some (x, r)) =
          after_put-IsStranded x _ (put-PutCase L x m.queue)
            (record { closed = v.closed; empty = v.empty; asleep = v.asleep })
  step-IsStranded m (get_call w) v = after_get-IsStranded w m (get-GetCase L m.queue) v
  step-IsStranded m (get_again w) v = again m.get_woken
    where
      again : (n : ℕ) → IsStranded (get_once_more D w n m)
      again zero = v
      again (suc n) =
          after_get-IsStranded w _ (get-GetCase L m.queue)
            (record { closed = v.closed; empty = v.empty; asleep = v.asleep })
  step-IsStranded m (close_call true) v = record {
    closed = refl;
    empty = L.contents-clear m.queue.elems;
    asleep = v.asleep;
  }
  step-IsStranded m (close_call false) v = record {
    closed = refl;
    empty = v.empty;
    asleep = v.asleep;
  }

  run-IsStranded : (m : Monitor D) (es : List (Event T)) → IsStranded m → IsStranded (run D m es)
  unfolding run
  run-IsStranded m [] v = v
  run-IsStranded m (e ∷ es) v = run-IsStranded (step D m e) es (step-IsStranded m e v)

module _ {T : Type 0} {D : Deque T} (L : DequeLaws D) where
  -- The Puts that sleep when `Close(true)` is called sleep for ever: after any further events the
  -- very same ones still sleep. Every Get that sleeps is woken by the call.
  pub close_strands_puts :
      (m : Monitor D) (es : List (Event T))
      → ((run D (step D m (close_call true)) es).put_asleep ≡ m.put_asleep)
        × ((step D m (close_call true)).get_asleep ≡ 0)
  unfolding step run_close close
  close_strands_puts m es =
      let shut =
        run-IsStranded L m.put_asleep (run_close D true m) es
          (record { closed = refl; empty = L.contents-clear m.queue.elems; asleep = refl }) in
      (shut.asleep, refl)

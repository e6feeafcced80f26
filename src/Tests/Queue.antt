-- ===== src/Tests/Queue.antt =====
-- internal/util/blocking_queue.go over a deque that is a list.
use mock_server.Prelude.{ℕ, ◌≡◌, refl, true, false, List, [], ◌∷◌, ◌++◌, some, none, arith, length}
use mock_server.Util.Queue.{
  Deque, DequeLaws, pos, new_bounded_blocking_queue, is_full, put, get, close,
}
use mock_server.Util.Queue.Passes.{items}
use mock_server.Util.Queue.Monitor.{
  Event, put_call, put_again, get_call, get_again, close_call, pick, step, run, start, run_put,
  run_get, run_close,
}
use mock_server.Util.Queue.Wakeups.{Fits, reached, reached-Fits, get_asleep_on_empty}
use mock_server.Util.Queue.Fifo.{accepted-eq-delivered-append-items}
use mock_server.Util.Queue.Shutdown.{close_strands_puts}

abbrev list_deque : Deque ℕ
list_deque = record {
  Rep = List ℕ;
  new = [];
  push_back = λ x d. d ++ x ∷ [];
  pop_front = elim [ [] ↦ none | x ∷ xs ↦ some (x, xs) ];
  len = length;
  clear = λ _. [];
}

abbrev list_laws : DequeLaws list_deque
list_laws = record {
  contents = λ d. d;
  contents-new = refl;
  contents-push_back = λ x d. refl;
  pop_front_cons = λ d x xs e. (xs, rw e refl, refl);
  len_lem = λ d. refl;
  contents-clear = λ d. refl;
}

-- A queue of one place: the second Put sleeps, and Gets drain it.
abbrev crowded : List (Event ℕ)
crowded = put_call 1 ∷ put_call 2 ∷ []

abbrev served : List (Event ℕ)
served = get_call 0 ∷ put_call 1 ∷ put_call 2 ∷ get_again 0 ∷ put_again 0 ∷ []

monitor : Unit {0}
unfolding run step start new_bounded_blocking_queue put get close pick is_full run_put run_get
    run_close
monitor = tt

served_delivers : (reached list_laws (pos 1) served).delivered ≡ 1 ∷ []
unfolding monitor
served_delivers = refl

served_holds : items list_laws (reached list_laws (pos 1) served).queue ≡ 2 ∷ []
unfolding monitor
served_holds = refl

crowded_sleeps : (reached list_laws (pos 1) crowded).put_asleep ≡ 2 ∷ []
unfolding monitor
crowded_sleeps = refl

reached-Fits_example :
    ((reached list_laws (pos 1) served).panicked ≡ false)
    × Fits list_deque (pos 1) (length (items list_laws (reached list_laws (pos 1) served).queue))
reached-Fits_example = reached-Fits list_laws (pos 1) served

get_asleep_on_empty_example :
    ((reached list_laws (pos 1) (get_call 0 ∷ [])).queue.closed ≡ false)
    × (items list_laws (reached list_laws (pos 1) (get_call 0 ∷ [])).queue ≡ [])
unfolding monitor
get_asleep_on_empty_example =
    get_asleep_on_empty list_laws (pos 1) (get_call 0 ∷ []) refl (omega arith)

accepted-eq-delivered-append-items_example :
    (reached list_laws (pos 1) served).accepted
    ≡ (reached list_laws (pos 1) served).delivered
      ++ items list_laws (reached list_laws (pos 1) served).queue
accepted-eq-delivered-append-items_example =
    accepted-eq-delivered-append-items list_laws (pos 1) served (ground arith)

close_strands_puts_example :
    ((run list_deque
        (step list_deque (reached list_laws (pos 1) crowded) (close_call true))
        (get_call 0 ∷ put_again 0 ∷ [])).put_asleep
      ≡ (reached list_laws (pos 1) crowded).put_asleep)
    × ((step list_deque (reached list_laws (pos 1) crowded) (close_call true)).get_asleep ≡ 0)
close_strands_puts_example =
    close_strands_puts list_laws (reached list_laws (pos 1) crowded) (get_call 0 ∷ put_again 0 ∷ [])

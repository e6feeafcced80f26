-- ===== src/Brokers/Esb/Delivered.antt =====
-- internal/brokers/esb.go and internal/coderun together: a mapper, from submitToESB over RunScript and
-- the worker's process to the run of its script.
use mock_server.Prelude.{
  ◌≡◌, ◌≢◌, refl, false, String, List, [], ◌∷◌, ◌++◌, append-nil, sym, Option, none, some, ◌==◌,
  arith, eq_iff,
}
use mock_server.Errors.{Error, code_run_failed, Result, ok, err}
use mock_server.Util.CodeWrappers.{wrap_args_for_esb}
use mock_server.Database.Documents.{EsbRecord, MessagePool}
use mock_server.Database.Driver.{Collection, Cache}
use mock_server.Coderun.Watcher.{Worker}
use mock_server.Coderun.RunScript.{new_mapper_args, byte_args}
use mock_server.Coderun.Script.{Host, Ran, done, fails, run_python_script}
use mock_server.Coderun.Script.Delivery.{output_of, run_request, run_script-delivery, workers_over}
use mock_server.Brokers.Registry.{Codec, Clients, Pool}
use mock_server.Brokers.Registry.Stored.{get_message_pool}
use mock_server.Brokers.Esb.{
  empty_mapper, mapped_msgs, run_mapper, Esb, schedule, schedule_mapped, submit_found,
  submit_to_esb,
}

module _ (H : Host) {P : Type 0} (borrow : P → P × Result Worker) (give_back : Worker → P → P)
    (unmarshal : String → Result (List String)) where
  -- The messages that a run of the mapper gives.
  abbrev pub mapped : Ran → Result (List String)
  mapped (done out) = unmarshal out
  mapped (fails out e) = err code_run_failed

  mapped_run :
      (q : Ran)
      → mapped_msgs (workers_over H borrow give_back) unmarshal (output_of q).0 (output_of q).1
        ≡ mapped q
  unfolding mapped_msgs
  mapped_run (done out) = refl
  mapped_run (fails out e) = refl

  -- The mapper runs on the messages as WrapArgsForEsb makes them, and the worker is given back.
  run_mapper-delivery :
      (mapper : String) (msgs : List String) (p p' : P) (w : Worker) (s : H.State)
      → borrow p ≡ (p', ok w)
      → let (s', q) =
          run_python_script H (run_request "mapper" mapper (wrap_args_for_esb msgs)) s in
        run_mapper (workers_over H borrow give_back) unmarshal mapper msgs (p, s)
        ≡ ((give_back w p', s'), mapped q)
  unfolding run_mapper
  run_mapper-delivery mapper msgs p p' w s lends =
      let bytes = wrap_args_for_esb msgs in
      let r = run_python_script H (run_request "mapper" mapper bytes) s in
      let ran =
        run_script-delivery H w "mapper" mapper (new_mapper_args msgs) bytes s
          (unfold byte_args new_mapper_args in refl) in
      rw (lends, ran) (λ i. ((give_back w (lends i).0, r.0), mapped_run r.1 i))

  module _ (J : Codec) (B : Clients) (C : Collection) (K : Cache MessagePool) where
    abbrev Submitting : Type 0
    Submitting = Esb (workers_over H borrow give_back) unmarshal J B C K

    -- The write task of the pool for the messages that are there.
    abbrev pub tasks : Pool J → Result (List String) → List (Pool J × List String)
    tasks handler (ok out) = (handler, out) ∷ []
    tasks handler (err e) = []

    abbrev pub error_in : Result (List String) → Option Error
    error_in (ok out) = none
    error_in (err e) = some e

    schedule_mapped-tasks :
        (handler : Pool J) (e : Submitting) (workers : P × H.State) (out : Result (List String))
        → let (e', failure) =
            schedule_mapped
              (workers_over H borrow give_back)
              unmarshal
              J
              B
              C
              K
              handler
              e
              (workers, out) in
          (e'.workers ≡ workers)
          × (failure ≡ error_in out)
          × (e'.scheduled ≡ e.scheduled ++ tasks handler out)
    unfolding schedule_mapped schedule
    schedule_mapped-tasks handler e workers (ok out) = (refl, refl, refl)
    schedule_mapped-tasks handler e workers (err x) = (refl, refl, sym (append-nil e.scheduled))

    -- If the record has a mapper, its out-pool is found, a worker can be borrowed, and the worker's
    -- process gets the request and its response arrives, then submitToESB runs the mapper in that
    -- process on the messages as WrapArgsForEsb makes them, and gives the worker back. If the run's
    -- output parses as a list, it returns nil and has scheduled one write task of the out-pool with
    -- that list; otherwise it returns the error and has scheduled nothing.
    pub submit_to_esb-delivery :
        (r : EsbRecord) (msgs : List String) (e : Submitting) (handler : Pool J) (p' : P)
        (w : Worker)
        → (get_message_pool J B C K r.pool_name_out e.registry).1 ≡ ok handler
        → r.mapper_script_name ≢ empty_mapper
        → borrow e.workers.0 ≡ (p', ok w)
        → let (s', q) =
            run_python_script H
              (run_request "mapper" r.mapper_script_name (wrap_args_for_esb msgs))
              e.workers.1 in
          let (e', failure) =
            submit_to_esb (workers_over H borrow give_back) unmarshal J B C K r msgs e in
          (e'.workers ≡ (give_back w p', s'))
          × (failure ≡ error_in (mapped q))
          × (e'.scheduled ≡ e.scheduled ++ tasks handler (mapped q))
    unfolding submit_to_esb submit_found
    submit_to_esb-delivery r msgs e handler p' w found named lends =
        let ran =
          run_mapper-delivery r.mapper_script_name msgs e.workers.0 p' w e.workers.1 lends in
        let off : (r.mapper_script_name == empty_mapper) ≡ false =
          ground (arith, eq_iff r.mapper_script_name empty_mapper) in
        let e' : Submitting = record e {
          registry = (get_message_pool J B C K r.pool_name_out e.registry).0;
        } in
        rw (found, submit_found, off, ran) (schedule_mapped-tasks handler e' _ _)

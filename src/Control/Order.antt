-- ===== src/Control/Order.antt =====
-- internal/control/components.go: when Start returns, and what Stop calls after it.
use mock_server.Prelude.{
  ap, ◌≡◌, ◌↔◌, inl, inr, true, Option, none, some, List, [], ◌∷◌, ◌++◌, arith, Option-cases,
}
use mock_server.Errors.{Result, ok, Result-cases}
use mock_server.Configs.Service.{
  ComponentsConfig, SchedulerConfig, CoderunConfig, ServerConfig, ServiceConfig,
  get_mp_task_scheduler_config, get_coderun_config, get_server_config,
}
use mock_server.Control.{
  main, wait, Event, server_start, server_stop, scheduler_start, scheduler_stop, watcher_init,
  watcher_stop, cancel, disconnect, Returns, start, stop, server_init_start, scheduler_init_start,
  watcher_start,
}

-- The calls that end what the given calls have started, in the same order.
abbrev pub stops : List Event → List Event
stops [] = []
stops (server_start ∷ es) = server_stop ∷ stops es
stops (scheduler_start ∷ es) = scheduler_stop ∷ stops es
stops (watcher_init c ∷ es) = watcher_stop ∷ stops es
stops (_ ∷ es) = stops es

module _ (X : Returns) where
  -- If Start has returned and Stop returns, then Stop calls the cancellation, then the end of each
  -- component that Start has started, in the order of their starts, and nothing else before it
  -- disconnects from the database.
  stop-start :
      (loaded : Result ServiceConfig) (c : ComponentsConfig)
      → (start X loaded).1 ≡ ok c
      → (stop X c).1 ≡ ok tt
      → (stop X c).0 ≡ cancel ∷ (stops (start X loaded).0 ++ disconnect ∷ [])
  unfolding start stop server_init_start watcher_start scheduler_init_start
      get_mp_task_scheduler_config get_coderun_config get_server_config
  stop-start loaded c done stopped = ground arith

  -- If main returns, its calls are those of Start, the wait for the signal, the cancellation, the
  -- end of each component that Start has started, in the order of their starts, and the
  -- disconnection from the database, and no others.
  pub main_calls :
      (loaded : Result ServiceConfig)
      → (main X loaded).1 ≡ ok tt
      → (main X loaded).0
        ≡ (start X loaded).0 ++ wait ∷ cancel ∷ (stops (start X loaded).0 ++ disconnect ∷ [])
  unfolding main
  main_calls loaded done = elim (Result-cases (start X loaded).1) [
    | inl (e, bad) ↦ let done' = rw (bad) at done in cc
    | inr (c, fine) ↦
        let stopped : (stop X c).1 ≡ ok tt = rw fine at done in
        rw fine (ap (λ es. (start X loaded).0 ++ wait ∷ es) (stop-start loaded c fine stopped))
  ]

  abbrev pub CanServe : Option ServerConfig → Type 0
  CanServe none = ⊥
  CanServe (some s) = (X.new_file_storage_driver ≡ none) × (X.serve s.addr ≡ none)

  abbrev pub CanSchedule : Option SchedulerConfig → Type 0
  CanSchedule none = ⊥
  CanSchedule (some s) = Unit {0}

  abbrev pub CanRun : Option CoderunConfig → Type 0
  CanRun none = ⊥
  CanRun (some w) = X.init_watcher w ≡ none

  -- Start returns exactly if the database's initialisation returns nil and each component that is
  -- switched on has its section in the configuration and starts: the server gets its file storage
  -- and its address, and the watcher's Init returns nil.
  pub start-eq-ok_iff :
      (config : ServiceConfig)
      → ((start X (ok config)).1 ≡ ok config.components) ↔ (
          (X.init_db config.database ≡ none)
          × (config.components.server ≡ true → CanServe config.server)
          × (config.components.brokers ≡ true → CanSchedule config.brokers)
          × (config.components.coderun ≡ true → CanRun config.coderun))
  unfolding start server_init_start watcher_start scheduler_init_start get_mp_task_scheduler_config
      get_coderun_config get_server_config
  start-eq-ok_iff config = (
    λ h. (
      ground arith,
      λ on. elim (Option-cases config.server) [
        | inl e ↦ ground arith
        | inr (s, e) ↦ rw e (ground arith, ground arith)
      ],
      λ on. elim (Option-cases config.brokers) [ inl e ↦ ground arith | inr (s, e) ↦ rw e tt ],
      λ on. elim (Option-cases config.coderun) [
        | inl e ↦ ground arith
        | inr (w, e) ↦ rw e (ground arith)
      ],
    ),
    λ (db, server, brokers, coderun). ground (arith),
  )

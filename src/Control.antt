-- ===== src/Control.antt =====
-- cmd/server/main.go, internal/control/components.go, and the Init, Start and Stop of internal/server/server.go: which
-- components are started and stopped, in which order. Wait ends with a signal.
-- What a component's function returns is a parameter; the calls are written down in order.
pub mod Order
use mock_server.Prelude.{ℕ, String, Bool, Option, none, some, List, [], ◌∷◌, ◌++◌, if◌then◌else◌}
use mock_server.Errors.{Error, panicked, Result, ok, err}
use mock_server.Database.Init.{DatabaseConfig}
use mock_server.Configs.Service.{
  ComponentsConfig, SchedulerConfig, CoderunConfig, ServerConfig, ServiceConfig, LogConfig,
  get_mp_task_scheduler_config, get_coderun_config, get_server_config, get_log_config,
  get_database_config, get_components_config,
}

pub data Event : Type 0 where
  logger_init : LogConfig → Event
  init_db : Event
  server_init : ServerConfig → Event
  server_start server_stop : Event
  scheduler_init : SchedulerConfig → Event
  scheduler_start scheduler_stop : Event
  watcher_init : CoderunConfig → Event
  watcher_stop : Event
  wait cancel disconnect : Event

-- What the calls return: NewFileStorageDriver, reuseport.Listen with Serve, WorkerWatcher.Init,
-- Shutdown and Disconnect.
pub record Returns : Type 0 where
  pub init_db : DatabaseConfig → Option Error
  pub new_file_storage_driver : Option Error
  pub serve : String → Option Error
  pub init_watcher : CoderunConfig → Option Error
  pub shutdown : Option Error
  pub disconnect : Option Error

-- The calls so far, and a value or the panic that ended them.
abbrev pub Run {ℓ} : Type ℓ → Type ℓ
Run A = List Event × Result A

abbrev after {ℓ} : {A : Type ℓ} → List Event → Run A → Run A
after es (fs, r) = (es ++ fs, r)

infixl 5 ◌>>=◌ ◌>>◌
abbrev ◌>>=◌ {ℓ κ} : {A : Type ℓ} {B : Type κ} → Run A → (A → Run B) → Run B
(es, ok a) >>= f = after es (f a)
(es, err e) >>= f = (es, err e)

abbrev ◌>>◌ {κ} : {B : Type κ} → Run (Unit {0}) → Run B → Run B
m >> k = m >>= λ _. k

abbrev call : Event → Run (Unit {0})
call e = (e ∷ [], ok tt)

abbrev panic_on : Option Error → Run (Unit {0})
panic_on none = ([], ok tt)
panic_on (some e) = ([], err e)

-- A nil pointer panics when a field is read.
abbrev deref {ℓ} : {A : Type ℓ} → Option A → Run A
deref none = ([], err panicked)
deref (some a) = ([], ok a)

abbrev lift {ℓ} : {A : Type ℓ} → Result A → Run A
lift r = ([], r)

abbrev when : Bool → Run (Unit {0}) → Run (Unit {0})
when b m = if b then m else ([], ok tt)

module _ (X : Returns) where
  unfoldable pub server_init_start : Option ServerConfig → Run (Unit {0})
  server_init_start config = do
    panic_on X.new_file_storage_driver
    cfg ← deref config
    call (server_init cfg)
    call server_start
    panic_on (X.serve cfg.addr)

  watcher_start : Option CoderunConfig → Run (Unit {0})
  watcher_start config = do
    cfg ← deref config
    call (watcher_init cfg)
    panic_on (X.init_watcher cfg)

  scheduler_init_start : Result SchedulerConfig → Run (Unit {0})
  scheduler_init_start config = do
    cfg ← lift config
    call (scheduler_init cfg)
    call scheduler_start

  -- Start, with what LoadConfig gives.
  unfoldable pub start : Result ServiceConfig → Run ComponentsConfig
  unfolding server_init_start watcher_start scheduler_init_start
  start loaded = do
    config ← lift loaded
    let cfg = get_components_config config
    call (logger_init (get_log_config config))
    call init_db
    panic_on (X.init_db (get_database_config config))
    when cfg.server (server_init_start (get_server_config config))
    when cfg.brokers (scheduler_init_start (get_mp_task_scheduler_config config))
    when cfg.coderun (watcher_start (get_coderun_config config))
    ([], ok cfg)

  -- Stop; when Shutdown fails, zlog.Fatal ends the process.
  unfoldable pub stop : ComponentsConfig → Run (Unit {0})
  stop cfg = do
    call cancel
    when cfg.server (do call server_stop; panic_on X.shutdown)
    when cfg.brokers (call scheduler_stop)
    when cfg.coderun (call watcher_stop)
    call disconnect
    panic_on X.disconnect

  -- cmd/server/main.go: `defer` calls Stop after Wait, and a panic of Start ends the process before it.
  unfoldable pub main : Result ServiceConfig → Run (Unit {0})
  main loaded = do cfg ← start loaded; call wait; stop cfg

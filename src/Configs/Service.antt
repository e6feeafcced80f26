-- ===== src/Configs/Service.antt =====
-- internal/configs: the configuration of the whole service (parser.go, control_cfg.go, server_cfg.go,
-- coderun_cfg.go, logger_cfg.go, database.go), and the section of brokers_cfg.go for the scheduler.
-- A pointer to a section is `none` where the file leaves it out. A limit that is a float is its text, and
-- a duration the number of its nanoseconds. No number is negative.
use mock_server.Prelude.{ℕ, String, Bool, Option, none, some, ◌==◌, if◌then◌else◌, [], ◌∷◌}
use mock_server.Errors.{panicked, Result, ok, err}
use mock_server.Util.Text.{join_path}
use mock_server.Database.Init.{DatabaseConfig}

pub record ComponentsConfig : Type 0 where
  pub brokers : Bool
  pub coderun : Bool
  pub server : Bool

pub record SchedulerConfig : Type 0 where
  pub r_workers : ℕ
  pub w_workers : ℕ
  pub read_timeout : ℕ
  pub write_timeout : ℕ

pub record ContainerConfig : Type 0 where
  pub cpu_limit : String
  pub memory_limit_mb : String

pub record WorkerConfig : Type 0 where
  pub container_config : ContainerConfig
  pub handle_timeout : ℕ

pub record CoderunConfig : Type 0 where
  pub worker_config : WorkerConfig
  pub worker_cnt : ℕ

pub record ServerConfig : Type 0 where
  pub addr : String
  pub accept_timeout : ℕ
  pub response_timeout : ℕ
  pub deploy_production : Bool

pub record LogConfig : Type 0 where
  pub level : ℕ
  pub console_logging_enabled : Bool
  pub file_logging_enabled : Bool
  pub directory : String
  pub filename : String
  pub max_size : ℕ
  pub max_backups : ℕ
  pub max_age : ℕ

-- `brokers` is the scheduler's part of the section; Configs.antt has the connections.
pub record ServiceConfig : Type 0 where
  pub components : ComponentsConfig
  pub brokers : Option SchedulerConfig
  pub coderun : Option CoderunConfig
  pub server : Option ServerConfig
  pub logs : LogConfig
  pub database : DatabaseConfig

abbrev pub default_config_path : String
default_config_path = "/configs/config.yaml"

-- The operating system, the YAML decoder, which fills in the variable `config`, and the function that
-- the tests set.
pub record Files : Type 0 where
  pub config_path : String  -- Getenv("CONFIG_PATH")
  pub project_root : Result String
  pub abs : String → Result String
  pub read_file : String → Result String
  pub unmarshal : String → ServiceConfig → Result ServiceConfig
  pub configure_for_testing : Option (ServiceConfig → ServiceConfig)

-- An error is a panic.
infixl 5 ◌>>=◌
abbrev pub ◌>>=◌ {ℓ κ} : {A : Type ℓ} {B : Type κ} → Result A → (A → Result B) → Result B
ok a >>= f = f a
err e >>= f = err e

configured : Option (ServiceConfig → ServiceConfig) → ServiceConfig → ServiceConfig
configured none config = config
configured (some f) config = f config

unfoldable pub load_config : Files → ServiceConfig → Result ServiceConfig
unfolding configured
load_config files config =
    let cfg_path = if files.config_path == "" then default_config_path else files.config_path in
    do
      path ← files.project_root
      full_cfg_path ← files.abs (join_path (path ∷ cfg_path ∷ []))
      cfg ← files.read_file full_cfg_path
      loaded ← files.unmarshal cfg config
      ok (configured files.configure_for_testing loaded)

-- `&config.Brokers.Scheduler`, which panics on a nil pointer.
unfoldable pub get_mp_task_scheduler_config : ServiceConfig → Result SchedulerConfig
get_mp_task_scheduler_config config = elim config.brokers [
  | none ↦ err panicked
  | some scheduler ↦ ok scheduler
]

unfoldable pub get_coderun_config : ServiceConfig → Option CoderunConfig
get_coderun_config config = config.coderun

unfoldable pub get_server_config : ServiceConfig → Option ServerConfig
get_server_config config = config.server

abbrev pub get_log_config : ServiceConfig → LogConfig
get_log_config config = config.logs

abbrev pub get_database_config : ServiceConfig → DatabaseConfig
get_database_config config = config.database

abbrev pub get_components_config : ServiceConfig → ComponentsConfig
get_components_config config = config.components

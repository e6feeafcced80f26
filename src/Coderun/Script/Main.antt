-- ===== src/Coderun/Script/Main.antt =====
-- internal/coderun/worker/main.go, main: how the process in a worker's container starts and ends.
-- The calls are written down in order.
use mock_server.Prelude.{ℕ, String, List, [], ◌∷◌, Option, none, some}
use mock_server.Errors.{Error}
use mock_server.Util.Text.{◌^◌}

-- What ListenAndServe returns, if it is not nil.
pub data ServeError : Type 0 where
  server_closed : ServeError
  other : Error → ServeError

-- What the calls give: LoadConfig (an error is its panic), LookupEnv("PORT") and ListenAndServe.
pub record Returns : Type 0 where
  pub load_config : Option Error
  pub port : Option String
  pub listen_and_serve : String → Option ServeError

pub data Event : Type 0 where
  load_config logger_init : Event
  handle_func : String → Event  -- runHandle under a pattern
  listen_and_serve : String → Event

pub data End : Type 0 where
  returned : End
  exited : ℕ → End
  panicked : End

ended : Option ServeError → End
ended none = returned
ended (some server_closed) = returned
ended (some (other e)) = panicked

serve_on : Returns → Option String → List Event × End
unfolding ended
serve_on X none = (load_config ∷ logger_init ∷ [], exited 1)
serve_on X (some port) = (
  load_config ∷ logger_init ∷ handle_func "/run" ∷ listen_and_serve (":" ^ port) ∷ [],
  ended (X.listen_and_serve (":" ^ port)),
)

unfoldable pub main : Returns → List Event × End
unfolding serve_on
main X = elim X.load_config [ some e ↦ (load_config ∷ [], panicked) | none ↦ serve_on X X.port ]

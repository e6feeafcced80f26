-- ===== src/Coderun/Containers.antt =====
-- internal/coderun/watcher.go: the containers behind the workers, from Init to Stop.
-- Coderun/Watcher.antt has the channels and what runs beside each other; here Docker is the state, and
-- Init and Stop run alone, as they do when the program starts and when it ends.
-- The sends of Init do not wait: it makes at most as many as the channel has room for.
pub mod Tracking
pub mod Removed
use mock_server.Prelude.{
  ℕ, zero, suc, String, Bool, true, false, List, [], ◌∷◌, ◌++◌, Option, none, some, ◌==◌,
  if◌then◌else◌,
}
use mock_server.Errors.{Error, Result, ok, err}
use mock_server.Coderun.Docker.{
  Docker, Surroundings, new_docker_provider, build_worker_image, create_worker_container,
  start_worker_container, remove_worker_container,
}

-- The package net, on the same machine: the address of a name, and the port on which a listener for it
-- is opened. The listener is closed again.
pub record Tcp (D : Docker) : Type 0 where
  pub resolve_tcp_addr : String → String → Result String
  pub listen_tcp : String → String → D.State → Result String

pub record Worker : Type 0 where
  pub port : String
  pub c_id : String

-- A worker by its port; a port that is there gets the new worker.
unfoldable pub set_worker : Worker → List Worker → List Worker
set_worker w [] = w ∷ []
set_worker w (v ∷ vs) = let rest = set_worker w vs in if v.port == w.port then w ∷ vs else v ∷ rest

module _ (D : Docker) (T : Tcp D) (sur : Surroundings) where
  pub record Watcher : Type 0 where
    pub docker : D.State
    pub workers : List Worker
    pub worker_by_port : List Worker
    pub closed : Bool  -- both channels

  unfoldable pub get_free_port : D.State → Result String
  get_free_port s = elim (T.resolve_tcp_addr "tcp" "localhost:0") [
    | err e ↦ err e
    | ok addr ↦ T.listen_tcp "tcp" addr s
  ]

  launched : Watcher → String → String → D.State × Option Error → Watcher × Option Error
  launched s port id (docker, some e) = (record s { docker = docker }, some e)
  launched s port id (docker, none) =
      let worker : Worker = record { port = port; c_id = id } in
      (
        record s {
          docker = docker;
          workers = s.workers ++ worker ∷ [];
          worker_by_port = set_worker worker s.worker_by_port;
        },
        none,
      )

  launch : Watcher → String → D.State × Result String → Watcher × Option Error
  unfolding launched
  launch s port (docker, err e) = (record s { docker = docker }, some e)
  launch s port (docker, ok id) = launched s port id (start_worker_container D id docker)

  unfoldable pub start_new_worker : Watcher → Watcher × Option Error
  unfolding launch
  start_new_worker s = elim (get_free_port s.docker) [
    | err e ↦ (s, some e)
    | ok port ↦ launch s port (create_worker_container D sur port s.docker)
  ]

  remove_all : List Worker → D.State → D.State
  remove_all [] s = s
  remove_all (w ∷ ws) s = remove_all ws (remove_worker_container D w.c_id true s).0

  -- The map is walked in some order. What the removals return is ignored.
  unfoldable pub stop : (List Worker → List Worker) → Watcher → Watcher
  unfolding remove_all
  stop range s = record s { docker = remove_all (range s.worker_by_port) s.docker; closed = true }

  -- The loop of Init: the first error stops everything again.
  unfoldable pub start_workers : (List Worker → List Worker) → ℕ → Watcher → Watcher × Option Error
  start_workers range zero s = (s, none)
  start_workers range (suc n) s = elim ((start_new_worker s).1) [
    | some e ↦ (stop range (start_new_worker s).0, some e)
    | none ↦ start_workers range n (start_new_worker s).0
  ]

  abbrev pub empty : D.State → Watcher
  empty docker = record { docker = docker; workers = []; worker_by_port = []; closed = false }

  -- `new_client` is what client.NewClientWithOpts returns.
  unfoldable pub init :
      Option Error → (List Worker → List Worker) → ℕ → Watcher → Watcher × Option Error
  unfolding start_workers
  init new_client range worker_cnt s = elim (new_docker_provider D new_client) [
    | some e ↦ (s, some e)
    | none ↦
        let (docker, built) = build_worker_image D sur s.docker in
        elim built [
          | some e ↦ (record s { docker = docker }, some e)
          | none ↦ start_workers range worker_cnt (empty docker)
        ]
  ]

  -- cmd/tools/build_worker_image.go: SKIP_REBUILD_CONTAINER, and Init without workers. An error is a
  -- panic.
  unfoldable pub main :
      Bool → Option Error → (List Worker → List Worker) → Watcher → Watcher × Option Error
  main skip_rebuild new_client range s =
      if skip_rebuild then (s, none) else init new_client range 0 s

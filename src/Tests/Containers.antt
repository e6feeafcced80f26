-- ===== src/Tests/Containers.antt =====
-- internal/coderun/watcher.go on a machine that counts its containers and ports in ones.
use mock_server.Prelude.{
  ◌≡◌, refl, String, Bool, true, false, not, ◌&&◌, ◌||◌, [], ◌∷◌, Option, none, some, ◌==◌,
  if◌then◌else◌, arith, eq_refl,
}
use mock_server.Errors.{Error, failed, Result, ok, err}
use mock_server.Util.Text.{◌^◌}
use mock_server.Coderun.Docker.{
  Docker, Surroundings, Container, build_worker_image, create_worker_container,
  start_worker_container, has_worker_tag, get_mount_list, remove_worker_container,
  new_docker_provider,
}
use mock_server.Coderun.Containers.{
  Tcp, Watcher, set_worker, get_free_port, start_new_worker, start_workers, stop, empty, init,
}
use mock_server.Coderun.Containers.Tracking.{ContainerLaws}
use mock_server.Coderun.Containers.Removed.{stop-init}

record Machine : Type 0 where
  alive : String → Bool
  ports : String → String
  taken : String → Bool
  next_id : String
  next_port : String
  broken : Bool  -- containers do not start

abbrev created_in : Bool → Container → Machine → Machine × Result String
created_in true c s = (s, err (failed "conflict"))
created_in false c s = (
  record s {
    alive = λ j. s.next_id == j || s.alive j;
    ports = λ j. if s.next_id == j then c.host_port else s.ports j;
    next_id = "1" ^ s.next_id;
  },
  ok s.next_id,
)

abbrev started_in : Bool → String → Machine → Machine × Option Error
started_in true id s = (s, some (failed "broken"))
started_in false id s =
    (record s { taken = λ p. s.ports id == p || s.taken p; next_port = "1" ^ s.next_port }, none)

abbrev listened : Bool → String → Result String
listened true p = err (failed "address in use")
listened false p = ok p

abbrev docker : Docker
docker = record {
  State = Machine;
  image_list = λ s. ok (("mock-server-coderun-worker:latest" ∷ []) ∷ []);
  image_remove = λ tag s. (s, none);
  image_build = λ options s. (s, ok ("{}" ∷ [], none));
  container_create = λ c s. created_in (s.alive s.next_id) c s;
  ContainerJson = Unit;
  container_start = λ id s. started_in s.broken id s;
  container_inspect = λ id s. ok tt;
  container_stop = λ id s. (s, none);
  container_restart = λ id s. (s, none);
  container_remove = λ options id s. (record s { alive = λ j. not (id == j) && s.alive j }, none);
  line_error = λ l. ok "";
  wrap = λ e t. e;
}

abbrev tcp : Tcp docker
tcp = record {
  resolve_tcp_addr = λ network name. ok "127.0.0.1:0";
  listen_tcp = λ network addr s. listened (s.taken s.next_port) s.next_port;
}

unfoldable laws : ContainerLaws docker tcp
laws = record {
  there = λ s j. s.alive j;
  host_port = λ s j. s.ports j;
  bound = λ s p. s.taken p;
  create_ok = λ c s id h.
      (ground (arith, eq_refl s.next_id), ground (arith, eq_refl s.next_id), λ j. ground arith);
  create_failed = λ c s e j h. ground arith;
  create_bound = λ c s p h. ground arith;
  start_there = λ id j s. ground arith;
  start_bound = λ id p s h. ground arith;
  start_ok = λ id s h. ground (arith, eq_refl (s.ports id));
  remove_ok = λ id s h j. refl;
  listen_free = λ network addr p s h. ground arith;
}

abbrev sur : Surroundings
sur = record {
  rebuild_container = none;
  config_path = "";
  project_root = ok "/src";
  archive = λ root. none;
  file_storage_root = ok "/src/.storage";
  file_logging_enabled = false;
  log_directory = "";
  nano_cpus = 1000000000;
  memory = 512000000;
}

abbrev machine : Bool → Machine
machine broken = record {
  alive = λ j. j == "db";
  ports = λ j. "";
  taken = λ p. false;
  next_id = "1";
  next_port = "80";
  broken = broken;
}

abbrev two_workers : Watcher docker tcp sur × Option Error
two_workers = init docker tcp sur none (λ ws. ws) 2 (empty docker tcp sur (machine false))

starting : Unit {0}
unfolding laws init build_worker_image has_worker_tag new_docker_provider start_workers
    start_new_worker get_free_port create_worker_container start_worker_container
    remove_worker_container get_mount_list set_worker stop
starting = tt

stop-init_example :
    (stop docker tcp sur (λ ws. ws) two_workers.0).docker.alive "11"
    ≡ (build_worker_image docker sur (machine false)).0.alive "11"
unfolding starting
stop-init_example =
    stop-init sur laws none (λ ws. ws) 2 (empty docker tcp sur (machine false)) "11" (λ ws. refl)
      refl (refl, (refl, tt))

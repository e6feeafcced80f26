-- ===== src/Tests/Docker.antt =====
-- internal/coderun/docker-provider/docker_adapter.go with a client that knows whether the image is
-- there.
use mock_server.Prelude.{refl, String, Bool, true, false, List, [], ◌∷◌, Option, none}
use mock_server.Errors.{ok}
use mock_server.Coderun.Docker.{Docker, Surroundings, has_worker_tag}
use mock_server.Coderun.Docker.Images.{DockerLaws}

abbrev tags_if : Bool → List (List String)
tags_if true = ("mock-server-coderun-worker:latest" ∷ []) ∷ []
tags_if false = []

abbrev docker : Docker
docker = record {
  State = Bool;
  image_list = λ s. ok (tags_if s);
  image_remove = λ tag s. (false, none);
  image_build = λ options s. (true, ok ("{}" ∷ [], none));
  container_create = λ container s. (s, ok "1");
  ContainerJson = Unit;
  container_start = λ id s. (s, none);
  container_inspect = λ id s. ok tt;
  container_stop = λ id s. (s, none);
  container_restart = λ id s. (s, none);
  container_remove = λ options id s. (s, none);
  line_error = λ l. ok "";
  wrap = λ e t. e;
}

abbrev sur : Option String → Surroundings
sur rebuild = record {
  rebuild_container = rebuild;
  config_path = "";
  project_root = ok "/src";
  archive = λ root. none;
  file_storage_root = ok "/src/.storage";
  file_logging_enabled = false;
  log_directory = "";
  nano_cpus = 1000000000;
  memory = 512000000;
}

docker_laws : DockerLaws docker
unfolding has_worker_tag
docker_laws = record {
  images = tags_if;
  list_ok = λ s found h. cc;
  build_ok = λ options s ls e tags h fine. refl;
}

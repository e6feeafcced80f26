-- ===== src/Coderun/Docker.antt =====
-- internal/coderun/docker-provider/docker_adapter.go: building the image of the workers and creating
-- their containers. The Docker client is a parameter.
pub mod Images
pub mod Created
use Prim.Native.Char.{Char, code}
use Prim.Native.String
use mock_server.Prelude.{
  ℕ, ◌≡◌, refl, String, Bool, true, false, ◌&&◌, ◌||◌, List, [], ◌∷◌, ◌++◌, Option, none, some,
  ◌==◌, nat_eq, if◌then◌else◌,
}
use mock_server.Errors.{Error, failed, Result, ok, err}
use mock_server.Util.Text.{◌^◌, join_path}

-- `strings.HasPrefix`
unfoldable pub has_prefix : String → String → Bool
has_prefix s String.[] = true
has_prefix String.[] (String.◌∷◌ d t) = false
has_prefix (String.◌∷◌ c s) (String.◌∷◌ d t) = nat_eq (code c) (code d) && has_prefix s t

abbrev pub tag_prefix : String
tag_prefix = "mock-server-coderun-worker"

-- What ImageBuild is given; the context is the archive of a directory.
pub record BuildOptions : Type 0 where
  pub build_context : String
  pub dockerfile : String
  pub remove : Bool
  pub tags : List String

pub record Mount : Type 0 where
  pub source : String
  pub target : String

-- What ContainerCreate is given. All mounts are binds.
pub record Container : Type 0 where
  pub image : String
  pub exposed_port : String
  pub env : List String
  pub host_ip : String
  pub host_port : String
  pub nano_cpus : ℕ
  pub memory : ℕ
  pub mounts : List Mount

pub record RemoveOptions : Type 0 where
  pub remove_volumes : Bool
  pub force : Bool

-- The Docker client. `image_list` gives the tags of each image, and `image_build`
-- the lines of its log with the error of reading them. `line_error` is json.Unmarshal of a line, as far
-- as the field `error` of it. `image_remove` has the options PruneChildren and Force.
pub record Docker : Type 1 where
  pub State : Type 0
  pub image_list : State → Result (List (List String))
  pub image_remove : String → State → State × Option Error
  pub image_build : BuildOptions → State → State × Result (List String × Option Error)
  pub container_create : Container → State → State × Result String
  pub ContainerJson : Type 0
  pub container_start : String → State → State × Option Error
  pub container_inspect : String → State → Result ContainerJson
  pub container_stop : String → State → State × Option Error
  pub container_restart : String → State → State × Option Error
  pub container_remove : RemoveOptions → String → State → State × Option Error
  pub line_error : String → Result String
  pub wrap : Error → String → Error  -- errors.Wrap

-- What the operating system and the configuration give.
pub record Surroundings : Type 0 where
  pub rebuild_container : Option String  -- LookupEnv("REBUILD_CONTAINER")
  pub config_path : String  -- Getenv("CONFIG_PATH")
  pub project_root : Result String
  pub archive : String → Option Error  -- TarWithOptions
  pub file_storage_root : Result String
  pub file_logging_enabled : Bool
  pub log_directory : String
  pub nano_cpus : ℕ  -- int64(CPULimit * 1e9)
  pub memory : ℕ  -- int64(MemoryLimitMB * 1e6)

any_prefixed : List String → Bool
unfolding has_prefix
any_prefixed [] = false
any_prefixed (tag ∷ tags) = has_prefix tag tag_prefix || any_prefixed tags

-- The two loops.
unfoldable pub has_worker_tag : List (List String) → Bool
unfolding any_prefixed
has_worker_tag [] = false
has_worker_tag (tags ∷ images) = any_prefixed tags || has_worker_tag images

unfoldable pub last_line : List String → String
last_line [] = ""
last_line (l ∷ []) = l
last_line (l ∷ k ∷ ls) = last_line (k ∷ ls)

module _ (D : Docker) where
  unfoldable pub parse_docker_build_logs : List String → Option Error → Option Error
  parse_docker_build_logs ls scan_error = elim (D.line_error (last_line ls)) [
    | err e ↦ some e
    | ok message ↦ if message == "" then scan_error else some (failed message)
  ]

  unfoldable pub prune_worker_images : D.State → D.State × Option Error
  prune_worker_images s = D.image_remove tag_prefix s

  unfoldable pub start_worker_container : String → D.State → D.State × Option Error
  start_worker_container id s = D.container_start id s

  unfoldable pub inspect_worker_container : String → D.State → Result D.ContainerJson
  inspect_worker_container id s = D.container_inspect id s

  unfoldable pub stop_worker_container : String → D.State → D.State × Option Error
  stop_worker_container id s = D.container_stop id s

  unfoldable pub restart_worker_container : String → D.State → D.State × Option Error
  restart_worker_container id s = D.container_restart id s

  unfoldable pub remove_worker_container : String → Bool → D.State → D.State × Option Error
  remove_worker_container id force s =
      D.container_remove (record { remove_volumes = true; force = force }) id s

  -- `none`: client.NewClientWithOpts has returned a client.
  unfoldable pub new_docker_provider : Option Error → Option Error
  new_docker_provider none = none
  new_docker_provider (some e) = some (D.wrap e "failed to create docker adapter")

  parse_built : D.State × Result (List String × Option Error) → D.State × Option Error
  parse_built (s, err e) = (s, some e)
  parse_built (s, ok (ls, scan_error)) = (s, parse_docker_build_logs ls scan_error)

  module _ (sur : Surroundings) where
    build : D.State → D.State × Option Error
    unfolding parse_built
    build s = elim sur.project_root [
      | err e ↦ (s, some e)
      | ok root ↦ elim (sur.archive root) [
        | some e ↦ (s, some e)
        | none ↦ parse_built (
            D.image_build
              (record {
                build_context = root;
                remove = true;
                dockerfile = join_path ("internal" ∷ "coderun" ∷ "worker" ∷ "Dockerfile" ∷ []);
                tags = tag_prefix ∷ [];
              })
              s)
      ]
    ]

    rebuild : D.State × Option Error → D.State × Option Error
    unfolding build
    rebuild (s, some e) = (s, some (D.wrap e "prune old images"))
    rebuild (s, none) = build s

    unfoldable pub build_worker_image : D.State → D.State × Option Error
    unfolding rebuild
    build_worker_image s = elim (D.image_list s) [
      | err e ↦ (s, some e)
      | ok images ↦
          if has_worker_tag images
          then elim sur.rebuild_container [
            | some value ↦ rebuild (prune_worker_images s)
            | none ↦ (s, none)
          ]
          else build s
    ]

    unfoldable pub get_env_list : String → List String
    get_env_list port = ("PORT=" ^ port) ∷ ("CONFIG_PATH=" ^ sur.config_path) ∷ []

    unfoldable pub get_mount_list : Result (List Mount)
    get_mount_list = elim sur.file_storage_root [
      | err e ↦ err e
      | ok root ↦ ok (
          record { source = root; target = "/worker_dir/.storage" }
          ∷ (if sur.file_logging_enabled
              then record { source = sur.log_directory; target = sur.log_directory } ∷ []
              else []))
    ]

    created : D.State × Result String → D.State × Result String
    created (s, err e) = (s, err (D.wrap e "container cannot be created"))
    created (s, ok id) = (s, ok id)

    unfoldable pub create_worker_container : String → D.State → D.State × Result String
    unfolding created
    create_worker_container port s = elim get_mount_list [
      | err e ↦ (s, err e)
      | ok mounts ↦ created (
          D.container_create
            (record {
              image = tag_prefix;
              exposed_port = port ^ "/tcp";
              env = get_env_list port;
              host_ip = "127.0.0.1";
              host_port = port;
              nano_cpus = sur.nano_cpus;
              memory = sur.memory;
              mounts = mounts;
            })
            s)
    ]

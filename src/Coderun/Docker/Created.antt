-- ===== src/Coderun/Docker/Created.antt =====
-- internal/coderun/docker-provider/docker_adapter.go: what CreateWorkerContainer asks Docker for.
use mock_server.Prelude.{◌≡◌, ◌⊎◌, inl, inr, refl, String, arith}
use mock_server.Errors.{Error, ok, err, Result-cases}
use mock_server.Coderun.Docker.{
  Docker, Surroundings, Container, tag_prefix, get_env_list, get_mount_list, created,
  create_worker_container,
}
use mock_server.Util.Text.{◌^◌}

module _ (D : Docker) (sur : Surroundings) where
  -- Either Docker is not asked, or it is asked for a container on this port.
  pub create_worker_container-cases :
      (port : String) (s : D.State)
      → ((e : Error) × ((create_worker_container D sur port s).0 ≡ s)
          × ((create_worker_container D sur port s).1 ≡ err e))
        ⊎ ((c : Container) × (c.host_port ≡ port)
            × ((create_worker_container D sur port s).0 ≡ (D.container_create c s).0)
            × (((id : String) × ((D.container_create c s).1 ≡ ok id)
                  × ((create_worker_container D sur port s).1 ≡ ok id))
                ⊎ ((e : Error) × (f : Error) × ((D.container_create c s).1 ≡ err e)
                    × ((create_worker_container D sur port s).1 ≡ err f))))
  unfolding create_worker_container created
  create_worker_container-cases port s = elim (Result-cases (get_mount_list D sur)) [
    | inl (e, h) ↦
        inl (e, rw (h, create_worker_container) refl, rw (h, create_worker_container) refl)
    | inr (mounts, h) ↦
        let c : Container = record {
          image = tag_prefix;
          exposed_port = port ^ "/tcp";
          env = get_env_list D sur port;
          host_ip = "127.0.0.1";
          host_port = port;
          nano_cpus = sur.nano_cpus;
          memory = sur.memory;
          mounts = mounts;
        } in
        inr (
          c,
          refl,
          rw (h, create_worker_container) (both c),
          elim (Result-cases (D.container_create c s).1) [
            | inl (e, k) ↦ inr (
              e,
              D.wrap e "container cannot be created",
              k,
              rw (h, create_worker_container) (failed_of e c k),
            )
            | inr (id, k) ↦ inl (id, k, rw (h, create_worker_container) (id_of id c k))
          ],
        )
  ]
    where
      both :
          (c : Container) → (created D sur (D.container_create c s)).0 ≡ (D.container_create c s).0
      both c = ground arith

      failed_of :
          (e : Error) (c : Container)
          → (D.container_create c s).1 ≡ err e
          → (created D sur (D.container_create c s)).1
            ≡ err (D.wrap e "container cannot be created")
      failed_of e c k = ground arith

      id_of :
          (id : String) (c : Container)
          → (D.container_create c s).1 ≡ ok id
          → (created D sur (D.container_create c s)).1 ≡ ok id
      id_of id c k = ground arith

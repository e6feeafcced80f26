-- ===== src/Coderun/Containers/Removed.antt =====
-- internal/coderun/watcher.go: which containers are left when the watcher has stopped.
use mock_server.Prelude.{
  ℕ, ◌≡◌, inl, inr, refl, ap, ◌∙◌, String, true, false, not, ◌&&◌, List, [], ◌∷◌, Option, none,
  some, arith, eq_refl, Option-cases,
}
use mock_server.Errors.{Error, ok}
use mock_server.Coderun.Docker.{
  Docker, Surroundings, build_worker_image, new_docker_provider, create_worker_container,
  start_worker_container, remove_worker_container,
}
use mock_server.Coderun.Docker.Created.{create_worker_container-cases}
use mock_server.Coderun.Containers.Tracking.{
  ContainerLaws, has_id, Tracks, empty-Tracks, start_workers-Tracks,
}
use mock_server.Coderun.Containers.{
  Tcp, Worker, Watcher, get_free_port, launched, launch, start_new_worker, remove_all, stop, empty,
  init,
}

module _ {D : Docker} {T : Tcp D} (sur : Surroundings) (L : ContainerLaws D T) where
  -- Each removal of Stop returns nil.
  abbrev pub AllRemoved : List Worker → D.State → Type 0
  AllRemoved [] s = Unit {0}
  AllRemoved (w ∷ ws) s =
      ((remove_worker_container D w.c_id true s).1 ≡ none)
      × AllRemoved ws (remove_worker_container D w.c_id true s).0

  remove_all-there :
      (ws : List Worker) (s : D.State) (j : String)
      → AllRemoved ws s
      → L.there (remove_all D T sur ws s) j ≡ (not (has_id j ws) && L.there s j)
  unfolding remove_all remove_worker_container
  remove_all-there [] s j h = refl
  remove_all-there (w ∷ ws) s j (h, rest) = ground (
    arith,
    remove_all-there ws (remove_worker_container D w.c_id true s).0 j rest,
    L.remove_ok w.c_id s h j,
  )

  stop-there :
      (range : List Worker → List Worker) (s0 : D.State) (s : Watcher D T sur) (j : String)
      → ((ws : List Worker) → has_id j (range ws) ≡ has_id j ws)
      → Tracks sur L s0 s
      → AllRemoved (range s.worker_by_port) s.docker
      → L.there (stop D T sur range s).docker j ≡ L.there s0 j
  unfolding stop
  stop-there range s0 s j same t gone = ground (
    arith,
    remove_all-there (range s.worker_by_port) s.docker j gone,
    same s.worker_by_port,
    t.live j,
    t.fresh j,
  )

  init-Tracks :
      (new_client : Option Error) (range : List Worker → List Worker) (worker_cnt : ℕ)
      (s : Watcher D T sur)
      → (init D T sur new_client range worker_cnt s).1 ≡ none
      → Tracks sur L
          (build_worker_image D sur s.docker).0
          (init D T sur new_client range worker_cnt s).0
  unfolding init
  init-Tracks new_client range worker_cnt s done =
      elim (Option-cases (new_docker_provider D new_client)) [
        | inr (e, bad) ↦ let done' = rw (bad, init) at done in cc
        | inl client ↦ elim (Option-cases (build_worker_image D sur s.docker).1) [
          | inr (e, bad) ↦ let done' = rw (client, bad, init) at done in cc
          | inl built ↦
              rw (client, built, init)
                (start_workers-Tracks sur L range (build_worker_image D sur s.docker).0 worker_cnt
                  (empty D T sur (build_worker_image D sur s.docker).0)
                  (empty-Tracks sur L (build_worker_image D sur s.docker).0)
                  (rw (client, built, init) at done))
        ]
      ]

  -- If Init returns nil and each removal of Stop returns nil, then after Stop just those containers
  -- are there that were there before the first worker was started, in whatever order the map is
  -- walked.
  pub stop-init :
      (new_client : Option Error) (range : List Worker → List Worker) (worker_cnt : ℕ)
      (s : Watcher D T sur) (id : String)
      → ((ws : List Worker) → has_id id (range ws) ≡ has_id id ws)
      → (init D T sur new_client range worker_cnt s).1 ≡ none
      → AllRemoved
          (range (init D T sur new_client range worker_cnt s).0.worker_by_port)
          (init D T sur new_client range worker_cnt s).0.docker
      → L.there (stop D T sur range (init D T sur new_client range worker_cnt s).0).docker id
        ≡ L.there (build_worker_image D sur s.docker).0 id
  stop-init new_client range worker_cnt s id same done gone =
      stop-there range (build_worker_image D sur s.docker).0 _ id same
        (init-Tracks new_client range worker_cnt s done) gone

  -- If the containers that the watcher knows are just the new ones, and a container is created for
  -- a new worker and does not start, then startNewWorker returns the error and the container, which
  -- was not there before, is still there after Stop, even if each of its removals returns nil.
  start_new_worker_leaks :
      (range : List Worker → List Worker) (s0 : D.State) (s : Watcher D T sur) (port id : String)
      (e : Error)
      → ((ws : List Worker) → has_id id (range ws) ≡ has_id id ws)
      → Tracks sur L s0 s
      → get_free_port D T sur s.docker ≡ ok port
      → (create_worker_container D sur port s.docker).1 ≡ ok id
      → (start_worker_container D id (create_worker_container D sur port s.docker).0).1 ≡ some e
      → AllRemoved
          (range (start_new_worker D T sur s).0.worker_by_port)
          (start_new_worker D T sur s).0.docker
      → (L.there s.docker id ≡ false)
        × ((start_new_worker D T sur s).1 ≡ some e)
        × (L.there (stop D T sur range (start_new_worker D T sur s).0).docker id ≡ true)
  unfolding start_new_worker launch launched stop start_worker_container
  start_new_worker_leaks range s0 s port id e same t free made bad gone =
      elim (create_worker_container-cases D sur port s.docker) [
        | inl (e', _, made') ↦ cc
        | inr (c, _, _, inr (e', f, _, made')) ↦ cc
        | inr (c, on_port, same_docker, inl (id', asked, made')) ↦
            let dc : D.State = (D.container_create c s.docker).0 in
            let (new, at, there) = L.create_ok c s.docker id (cc) in
            let docker : (start_new_worker D T sur s).0.docker
                ≡ (D.container_start id (create_worker_container D sur port s.docker).0).0 =
              ground arith in
            let map : (start_new_worker D T sur s).0.worker_by_port ≡ s.worker_by_port =
              ground arith in
            let alive =
              ap (λ d. L.there d id) (docker ∙ ap (λ d. (D.container_start id d).0) same_docker)
              ∙ L.start_there id id dc
              ∙ there id in
            (
              new,
              ground arith,
              remove_all-there (range (start_new_worker D T sur s).0.worker_by_port)
                    (start_new_worker D T sur s).0.docker id gone
                  ∙ rw (same (start_new_worker D T sur s).0.worker_by_port, map, alive)
                      (ground (arith, t.live id, eq_refl id)),
            )
      ]

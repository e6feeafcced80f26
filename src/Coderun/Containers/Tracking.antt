-- ===== src/Coderun/Containers/Tracking.antt =====
-- internal/coderun/watcher.go: which containers the watcher knows while it starts.
use mock_server.Prelude.{
  ℕ, zero, suc, ◌≡◌, inl, inr, refl, ap, ◌∙◌, String, Bool, true, false, not, ◌&&◌, ◌||◌, List, [],
  ◌∷◌, none, ◌==◌, arith, eq_iff, Bool-cases, Option-cases,
}
use mock_server.Errors.{Error, ok, err, Result-cases}
use mock_server.Coderun.Docker.{
  Docker, Surroundings, Container, create_worker_container, start_worker_container,
}
use mock_server.Coderun.Docker.Created.{create_worker_container-cases}
use mock_server.Coderun.Containers.{
  Tcp, Worker, Watcher, set_worker, get_free_port, launched, launch, start_new_worker, empty,
  start_workers,
}

-- The documented behaviour of Docker and of the network, as far as the code relies on it.
pub record ContainerLaws (D : Docker) (T : Tcp D) : Type 0 where
  -- whether a container is there, the port of the host that it was created for, and whether a
  -- container that was started has bound a port
  pub there : D.State → String → Bool
  pub host_port : D.State → String → String
  pub bound : D.State → String → Bool
  -- a new container has a new id
  pub create_ok :
      (c : Container) (s : D.State) (id : String)
      → (D.container_create c s).1 ≡ ok id
      → (there s id ≡ false)
        × (host_port (D.container_create c s).0 id ≡ c.host_port)
        × ((j : String) → there (D.container_create c s).0 j ≡ (id == j || there s j))
  pub create_failed :
      (c : Container) (s : D.State) (e : Error) (j : String)
      → (D.container_create c s).1 ≡ err e
      → there (D.container_create c s).0 j ≡ there s j
  pub create_bound :
      (c : Container) (s : D.State) (p : String)
      → bound s p ≡ true
      → bound (D.container_create c s).0 p ≡ true
  -- a start adds and removes no container
  pub start_there : (id j : String) (s : D.State) → there (D.container_start id s).0 j ≡ there s j
  pub start_bound :
      (id p : String) (s : D.State) → bound s p ≡ true → bound (D.container_start id s).0 p ≡ true
  pub start_ok :
      (id : String) (s : D.State)
      → (D.container_start id s).1 ≡ none
      → bound (D.container_start id s).0 (host_port s id) ≡ true
  pub remove_ok :
      (id : String) (s : D.State)
      → (D.container_remove (record { remove_volumes = true; force = true }) id s).1 ≡ none
      → (j : String)
      → there (D.container_remove (record { remove_volumes = true; force = true }) id s).0 j
        ≡ (not (id == j) && there s j)
  -- a port that can be listened on is not bound
  pub listen_free :
      (network addr p : String) (s : D.State)
      → T.listen_tcp network addr s ≡ ok p
      → bound s p ≡ false

abbrev pub has_id : String → List Worker → Bool
has_id id [] = false
has_id id (w ∷ ws) = w.c_id == id || has_id id ws

abbrev pub has_port : String → List Worker → Bool
has_port p [] = false
has_port p (w ∷ ws) = w.port == p || has_port p ws

has_id-set_worker :
    (id : String) (w : Worker) (ws : List Worker)
    → has_port w.port ws ≡ false
    → has_id id (set_worker w ws) ≡ (w.c_id == id || has_id id ws)
unfolding set_worker
has_id-set_worker id w [] h = refl
has_id-set_worker id w (v ∷ vs) h = elim (Bool-cases (v.port == w.port)) [
  | inl e ↦ ground arith
  | inr e ↦ ground (arith, has_id-set_worker id w vs (ground arith))
]

has_port-set_worker :
    (p : String) (w : Worker) (ws : List Worker)
    → has_port p (set_worker w ws) ≡ (w.port == p || has_port p ws)
unfolding set_worker
has_port-set_worker p w [] = refl
has_port-set_worker p w (v ∷ vs) = elim (Bool-cases (v.port == w.port)) [
  | inl e ↦ ground (arith, eq_iff v.port w.port)
  | inr e ↦ ground (arith, has_port-set_worker p w vs)
]

module _ {D : Docker} {T : Tcp D} (sur : Surroundings) (L : ContainerLaws D T) where
  -- The watcher knows just those containers that were not there before, and each of them has a port
  -- of its own.
  pub record Tracks (s0 : D.State) (s : Watcher D T sur) : Type 0 where
    pub live : (j : String) → L.there s.docker j ≡ (L.there s0 j || has_id j s.worker_by_port)
    pub fresh : (j : String) → has_id j s.worker_by_port ≡ true → L.there s0 j ≡ false
    pub ports : (p : String) → has_port p s.worker_by_port ≡ true → L.bound s.docker p ≡ true

  pub empty-Tracks : (s0 : D.State) → Tracks s0 (empty D T sur s0)
  empty-Tracks s0 = record { live = λ j. ground arith; fresh = λ j h. cc; ports = λ p h. cc }

  port_unused :
      (s0 : D.State) (s : Watcher D T sur) (port : String)
      → Tracks s0 s
      → L.bound s.docker port ≡ false
      → has_port port s.worker_by_port ≡ false
  port_unused s0 s port t free = elim (Bool-cases (has_port port s.worker_by_port)) [
    | inl used ↦ absurd (ground (arith, t.ports port used))
    | inr unused ↦ unused
  ]

  -- A container that is created and started becomes one that the watcher knows.
  added-Tracks :
      (s0 : D.State) (s s' : Watcher D T sur) (w : Worker)
      → Tracks s0 s
      → s'.worker_by_port ≡ set_worker w s.worker_by_port
      → L.bound s.docker w.port ≡ false
      → L.there s.docker w.c_id ≡ false
      → ((j : String) → L.there s'.docker j ≡ (w.c_id == j || L.there s.docker j))
      → L.bound s'.docker w.port ≡ true
      → ((p : String) → L.bound s.docker p ≡ true → L.bound s'.docker p ≡ true)
      → Tracks s0 s'
  added-Tracks s0 s s' w t map free new there binds keeps =
      let unused = port_unused s0 s w.port t free in
      record {
        live = λ j.
            rw map
              (ground (arith, there j, t.live j, has_id-set_worker j w s.worker_by_port unused));
        fresh = λ j h.
            let h' = rw map at h in
            ground (
              arith,
              has_id-set_worker j w s.worker_by_port unused,
              t.fresh j,
              t.live j,
              eq_iff w.c_id j,
            );
        ports = λ p h.
            let h' = rw map at h in
            ground (
              arith,
              has_port-set_worker p w s.worker_by_port,
              t.ports p,
              keeps p,
              eq_iff w.port p,
            );
      }

  -- A port was free, and a container was created for it and started.
  abbrev Launched : Watcher D T sur → Type 0
  Launched s =
      (port : String) × (id : String) × (get_free_port D T sur s.docker ≡ ok port)
      × ((create_worker_container D sur port s.docker).1 ≡ ok id)
      × ((start_worker_container D id (create_worker_container D sur port s.docker).0).1 ≡ none)
      × ((start_new_worker D T sur s).0.docker
          ≡ (start_worker_container D id (create_worker_container D sur port s.docker).0).0)
      × ((start_new_worker D T sur s).0.worker_by_port
          ≡ set_worker (record { port = port; c_id = id }) s.worker_by_port)

  start_new_worker-none : (s : Watcher D T sur) → (start_new_worker D T sur s).1 ≡ none → Launched s
  unfolding start_new_worker launch launched
  start_new_worker-none s done = elim (Result-cases (get_free_port D T sur s.docker)) [
    | inl (e, h) ↦ let bad = rw (h, start_new_worker) at done in cc
    | inr (port, h) ↦ elim (Result-cases (create_worker_container D sur port s.docker).1) [
      | inl (e, k) ↦ let bad = rw (h, k, start_new_worker) at done in cc
      | inr (id, k) ↦
          elim (Option-cases
            (start_worker_container D id (create_worker_container D sur port s.docker).0).1) [
              | inl nil ↦ (port, id, h, k, nil, ground arith, ground arith)
              | inr (e, bad) ↦ let bad' = rw (h, k, bad, start_new_worker) at done in cc
            ]
    ]
  ]

  get_free_port-bound :
      (s : D.State) (port : String) → get_free_port D T sur s ≡ ok port → L.bound s port ≡ false
  unfolding get_free_port
  get_free_port-bound s port h = elim (Result-cases (T.resolve_tcp_addr "tcp" "localhost:0")) [
    | inl (e, k) ↦ let bad = rw (k, get_free_port) at h in cc
    | inr (addr, k) ↦ L.listen_free "tcp" addr port s (rw (k, get_free_port) at h)
  ]

  start_new_worker-Tracks :
      (s0 : D.State) (s : Watcher D T sur)
      → Tracks s0 s
      → (start_new_worker D T sur s).1 ≡ none
      → Tracks s0 (start_new_worker D T sur s).0
  unfolding get_free_port start_worker_container
  start_new_worker-Tracks s0 s t done =
      let (port, id, free, created, started, docker, map) = start_new_worker-none s done in
      elim (create_worker_container-cases D sur port s.docker) [
        | inl (e, _, bad) ↦ cc
        | inr (c, _, _, inr (e, f, _, bad)) ↦ cc
        | inr (c, on_port, same, inl (id', made, made')) ↦
            let dc : D.State = (D.container_create c s.docker).0 in
            let (new, at, there) = L.create_ok c s.docker id (cc) in
            let same_docker = docker ∙ ap (λ d. (D.container_start id d).0) same in
            added-Tracks s0 s (start_new_worker D T sur s).0 (record { port = port; c_id = id }) t
              map (get_free_port-bound s.docker port free) new
              (λ j. ap (λ d. L.there d j) same_docker ∙ L.start_there id j dc ∙ there j)
              (ap (λ d. L.bound d port) same_docker
                ∙ rw (at ∙ on_port) at (L.start_ok id dc (rw same at started)))
              (λ p b.
                ap (λ d. L.bound d p) same_docker
                ∙ L.start_bound id p dc (L.create_bound c s.docker p b))
      ]

  pub start_workers-Tracks :
      (range : List Worker → List Worker) (s0 : D.State) (n : ℕ) (s : Watcher D T sur)
      → Tracks s0 s
      → (start_workers D T sur range n s).1 ≡ none
      → Tracks s0 (start_workers D T sur range n s).0
  unfolding start_workers
  start_workers-Tracks range s0 zero s t done = t
  start_workers-Tracks range s0 (suc n) s t done =
      elim (Option-cases (start_new_worker D T sur s).1) [
        | inr (e, bad) ↦ let done' = rw (bad, start_workers) at done in cc
        | inl nil ↦
            rw (nil, start_workers)
              (start_workers-Tracks range s0 n (start_new_worker D T sur s).0
                (start_new_worker-Tracks s0 s t nil) (rw (nil, start_workers) at done))
      ]

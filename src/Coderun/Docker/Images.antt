-- ===== src/Coderun/Docker/Images.antt =====
-- internal/coderun/docker-provider/docker_adapter.go: when the image of the workers is built.
use mock_server.Prelude.{
  ◌≡◌, refl, sym, ap, ◌∙◌, String, true, List, [], ◌∷◌, Option, none, some, Bool-cases, inl, inr,
  Option-cases,
}
use mock_server.Errors.{Error, Result, ok, err, Result-cases}
use mock_server.Coderun.Docker.{
  Docker, BuildOptions, Surroundings, tag_prefix, has_worker_tag, parse_docker_build_logs,
  parse_built, build, rebuild, build_worker_image,
}

-- ImageList lists the images that there are, and an image that ImageBuild has built to the end of its
-- log stands among them with a tag that begins as it was asked.
pub record DockerLaws (D : Docker) : Type 0 where
  pub images : D.State → List (List String)
  pub list_ok :
      (s : D.State) (found : List (List String)) → D.image_list s ≡ ok found → images s ≡ found
  pub build_ok :
      (options : BuildOptions) (s : D.State) (ls : List String) (e : Option Error)
      → options.tags ≡ tag_prefix ∷ []
      → let (s', r) = D.image_build options s in
        r ≡ ok (ls, e) → parse_docker_build_logs D ls e ≡ none → has_worker_tag (images s') ≡ true

module _ {D : Docker} (L : DockerLaws D) where
  parse_built_tag :
      (p : D.State × Result (List String × Option Error))
      → ((ls : List String) (e : Option Error)
          → p.1 ≡ ok (ls, e)
          → parse_docker_build_logs D ls e ≡ none
          → has_worker_tag (L.images p.0) ≡ true)
      → (parse_built D p).1 ≡ none
      → has_worker_tag (L.images (parse_built D p).0) ≡ true
  unfolding parse_built
  parse_built_tag (s, err e) tagged h = cc
  parse_built_tag (s, ok (ls, e)) tagged h = tagged ls e refl h

  module _ (sur : Surroundings) where
    build_tag :
        (s : D.State)
        → (build D sur s).1 ≡ none
        → has_worker_tag (L.images (build D sur s).0) ≡ true
    unfolding build
    build_tag s h = elim (Result-cases sur.project_root) [
      | inl (e, bad) ↦ let h' = rw (build, bad) at h in cc
      | inr (root, good) ↦ elim (Option-cases (sur.archive root)) [
        | inr (e, bad) ↦ let h' = rw (build, good, bad) at h in cc
        | inl fine ↦
            rw (build, good, fine)
              (parse_built_tag _ (λ ls e. L.build_ok _ s ls e refl) (rw (build, good, fine) at h))
      ]
    ]

    rebuild_tag :
        (p : D.State × Option Error)
        → (rebuild D sur p).1 ≡ none
        → has_worker_tag (L.images (rebuild D sur p).0) ≡ true
    unfolding rebuild
    rebuild_tag (s, some e) h = cc
    rebuild_tag (s, none) h = build_tag s h

    -- Once BuildWorkerImage has returned nil, there is an image of the workers.
    pub build_worker_image_tag :
        (s : D.State)
        → (build_worker_image D sur s).1 ≡ none
        → has_worker_tag (L.images (build_worker_image D sur s).0) ≡ true
    unfolding build_worker_image
    build_worker_image_tag s h = elim (Result-cases (D.image_list s)) [
      | inl (e, bad) ↦ let h' = rw (build_worker_image, bad) at h in cc
      | inr (found, listed) ↦ elim (Bool-cases (has_worker_tag found)) [
        | inr fresh ↦
            rw (build_worker_image, listed, fresh)
              (build_tag s (rw (build_worker_image, listed, fresh) at h))
        | inl there ↦ elim (Option-cases sur.rebuild_container) [
          | inl unset ↦
              rw (build_worker_image, listed, there, unset)
                (ap has_worker_tag (L.list_ok s found listed) ∙ there)
          | inr (v, set) ↦
              rw (build_worker_image, listed, there, set)
                (rebuild_tag _ (rw (build_worker_image, listed, there, set) at h))
        ]
      ]
    ]

  image_skips :
      (sur : Surroundings) (s : D.State) (found : List (List String))
      → D.image_list s ≡ ok found
      → has_worker_tag found ≡ true
      → sur.rebuild_container ≡ none
      → build_worker_image D sur s ≡ (s, none)
  unfolding build_worker_image
  image_skips sur s found listed there unset = rw (build_worker_image, listed, there, unset) refl

  -- If BuildWorkerImage has returned nil, the images can be listed after it and no rebuild is asked
  -- for, then there is an image of the workers, and BuildWorkerImage builds nothing and returns
  -- nil.
  pub build_worker_image_once :
      (sur sur' : Surroundings) (s : D.State) (found : List (List String))
      → let (s', e) = build_worker_image D sur s in
        e ≡ none
        → D.image_list s' ≡ ok found
        → sur'.rebuild_container ≡ none
        → (has_worker_tag found ≡ true) × (build_worker_image D sur' s' ≡ (s', none))
  build_worker_image_once sur sur' s found nil listed unset =
      let s' = (build_worker_image D sur s).0 in
      let there : has_worker_tag found ≡ true =
        ap has_worker_tag (sym (L.list_ok s' found listed)) ∙ build_worker_image_tag sur s nil in
      (there, image_skips sur' s' found listed there unset)

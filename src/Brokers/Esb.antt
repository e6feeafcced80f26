-- ===== src/Brokers/Esb.antt =====
-- internal/brokers/esb.go: messages read from one pool, which a mapper may change, become a write task
-- of another pool.
pub mod Delivered
use mock_server.Prelude.{
  ◌≡◌, ◌≢◌, refl, ap, inl, inr, ◌⊎◌, String, List, [], ◌∷◌, ◌++◌, Option, none, some, ◌==◌,
  if◌then◌else◌, arith, eq_iff, Bool-cases,
}
use mock_server.Errors.{Error, Result, ok, err}
use mock_server.Database.Documents.{EsbRecord, MessagePool}
use mock_server.Database.Driver.{Collection, Cache}
use mock_server.Coderun.RunScript.{ScriptWorkers, new_mapper_args}
use mock_server.Brokers.Registry.{Codec, Clients, Pool}
use mock_server.Brokers.Registry.Stored.{Registry, get_message_pool}

abbrev pub empty_mapper : String
empty_mapper = ""

-- `unmarshal` is json.Unmarshal of a list of strings.
module _ (W : ScriptWorkers) (unmarshal : String → Result (List String)) where
  mapped_msgs : String → Option Error → Result (List String)
  mapped_msgs out (some e) = err e
  mapped_msgs out none = unmarshal out

  run_borrowed : String → List String → W.State × Result W.Worker → W.State × Result (List String)
  unfolding mapped_msgs
  run_borrowed mapper_name msgs (s, err e) = (s, err e)
  run_borrowed mapper_name msgs (s, ok worker) =
      let (s', out, e) = W.run_script worker "mapper" mapper_name (new_mapper_args msgs) s in
      (W.return_worker worker s', mapped_msgs out e)

  unfoldable pub run_mapper : String → List String → W.State → W.State × Result (List String)
  unfolding run_borrowed
  run_mapper mapper_name msgs s = run_borrowed mapper_name msgs (W.borrow_worker s)

  module _ (J : Codec) (B : Clients) (C : Collection) (K : Cache MessagePool) where
    -- What submitToESB works on. `scheduled` holds the write tasks that Schedule was called on.
    pub record Esb : Type 0 where
      pub registry : Registry J B C K
      pub workers : W.State
      pub scheduled : List (Pool J × List String)

    schedule : Pool J → List String → Esb → Esb × Option Error
    schedule handler msgs s = (record s { scheduled = s.scheduled ++ (handler, msgs) ∷ [] }, none)

    schedule_mapped : Pool J → Esb → W.State × Result (List String) → Esb × Option Error
    unfolding schedule
    schedule_mapped handler s (workers, err e) = (record s { workers = workers }, some e)
    schedule_mapped handler s (workers, ok msgs) =
        schedule handler msgs (record s { workers = workers })

    submit_found :
        EsbRecord → List String → Esb → Registry J B C K × Result (Pool J) → Esb × Option Error
    unfolding schedule_mapped
    submit_found r msgs s (registry, err e) = (record s { registry = registry }, some e)
    submit_found r msgs s (registry, ok handler) =
        let s' = record s { registry = registry } in
        if r.mapper_script_name == empty_mapper
        then schedule handler msgs s'
        else schedule_mapped handler s' (run_mapper r.mapper_script_name msgs s.workers)

    unfoldable pub submit_to_esb : EsbRecord → List String → Esb → Esb × Option Error
    unfolding submit_found
    submit_to_esb r msgs s =
        submit_found r msgs s (get_message_pool J B C K r.pool_name_out s.registry)

    -- What the new write task holds: the messages, or what the mapper makes of them.
    abbrev pub Mapped : EsbRecord → List String → W.State → List String → Type 0
    Mapped r msgs workers out =
        ((r.mapper_script_name ≡ empty_mapper) × (out ≡ msgs))
        ⊎ ((r.mapper_script_name ≢ empty_mapper)
            × ((run_mapper r.mapper_script_name msgs workers).1 ≡ ok out))

    -- What a call of submitToESB does.
    abbrev pub Submits : EsbRecord → List String → Esb → Esb × Option Error → Type 0
    Submits r msgs s (s', some e) = s'.scheduled ≡ s.scheduled
    Submits r msgs s (s', none) =
        (handler : Pool J) × (out : List String) × ((get_message_pool J B C K r.pool_name_out
            s.registry).1
          ≡ ok handler)
        × Mapped r msgs s.workers out
        × (s'.scheduled ≡ s.scheduled ++ (handler, out) ∷ [])

    mapped_Submits :
        (r : EsbRecord) (msgs : List String) (s : Esb) (registry : Registry J B C K)
        (handler : Pool J) (q : W.State × Result (List String))
        → (get_message_pool J B C K r.pool_name_out s.registry).1 ≡ ok handler
        → r.mapper_script_name ≢ empty_mapper
        → run_mapper r.mapper_script_name msgs s.workers ≡ q
        → Submits r msgs s (schedule_mapped handler (record s { registry = registry }) q)
    unfolding schedule_mapped schedule
    mapped_Submits r msgs s registry handler (workers, err e) found named ran = refl
    mapped_Submits r msgs s registry handler (workers, ok out) found named ran =
        (handler, out, found, inr (named, ap (λ p. p.1) ran), refl)

    found_Submits :
        (r : EsbRecord) (msgs : List String) (s : Esb) (q : Registry J B C K × Result (Pool J))
        → get_message_pool J B C K r.pool_name_out s.registry ≡ q
        → Submits r msgs s (submit_found r msgs s q)
    unfolding submit_found schedule
    found_Submits r msgs s (registry, err e) found = refl
    found_Submits r msgs s (registry, ok handler) found =
        elim (Bool-cases (r.mapper_script_name == empty_mapper)) [
          | inl h ↦ rw h (handler, msgs, ap (λ p. p.1) found, inl ((eq_iff _ _).0 h, refl), refl)
          | inr h ↦ rw h (
              mapped_Submits r msgs s registry handler _ (ap (λ p. p.1) found)
                (ground (arith, eq_iff r.mapper_script_name empty_mapper)) refl)
        ]

    -- If submitToESB returns nil, it has scheduled one write task, of the pool that the record
    -- names, with the messages if the record has no mapper and otherwise with what runMapper has
    -- made of them. If it returns an error, it has scheduled nothing.
    pub submit_to_esb_lem :
        (r : EsbRecord) (msgs : List String) (s : Esb) → Submits r msgs s (submit_to_esb r msgs s)
    unfolding submit_to_esb
    submit_to_esb_lem r msgs s = found_Submits r msgs s _ refl

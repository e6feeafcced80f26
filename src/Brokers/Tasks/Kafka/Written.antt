-- ===== src/Brokers/Tasks/Kafka/Written.antt =====
-- internal/brokers/kafka.go: what a write task stores.
use mock_server.Prelude.{
  ℕ, zero, suc, ◌+◌, ◌≡◌, refl, ap, inl, inr, String, List, [], ◌∷◌, ◌++◌, map, none, some, length,
  ◌==◌, if◌then◌else◌, arith, Option-cases,
}
use mock_server.Util.Tally.{tally}
use mock_server.Database.Documents.{TaskMessage}
use mock_server.Brokers.Pools.{KafkaMessagePool}
use mock_server.Brokers.Registry.{Codec, kafka, write_task_id}
use mock_server.Brokers.Tasks.{Services, ServicesLaws}
use mock_server.Brokers.Tasks.Kafka.{
  KafkaClient, Report, delivered, undelivered, deadline, World, produce_all, collect_reports, write,
}

module _ (J : Codec) (A : KafkaClient) {S : Services} (L : ServicesLaws S)
    (pool : KafkaMessagePool) where
  -- How often the values stand for the message under the id, when they are stored by the task.
  abbrev pub added : List String → String → String → ℕ
  added vs id m = if write_task_id J (kafka pool) == id then tally (λ v. v == m) vs else 0

  -- The reports begin with as many deliveries, and what these deliver has been stored.
  abbrev pub Stores : ℕ → List Report → S.State → S.State → Type 0
  Stores n es s s' =
      (vs : List String) × (rest : List Report) × (length vs ≡ n)
      × (es ≡ map delivered vs ++ rest)
      × ((id m : String) → L.stored s' id m ≡ L.stored s id m + added vs id m)

  collect_reports-Stores :
      (n : ℕ) (es : List Report) (s : S.State)
      → (collect_reports J A S pool n es s).1 ≡ some none
      → Stores n es s (collect_reports J A S pool n es s).0
  unfolding collect_reports
  collect_reports-Stores zero es s done = ([], es, refl, refl, λ id m. ground arith)
  collect_reports-Stores (suc n) [] s done = cc
  collect_reports-Stores (suc n) (deadline ∷ es) s done = cc
  collect_reports-Stores (suc n) (undelivered e ∷ es) s done = cc
  collect_reports-Stores (suc n) (delivered value ∷ es) s done =
      let t : TaskMessage = record { task_id = write_task_id J (kafka pool); message = value } in
      elim (Option-cases (S.add_task_message t s).1) [
        | inr (e, bad) ↦ let done' = rw (bad, collect_reports) at done in cc
        | inl nil ↦
            let (vs, rest, long, begins, stores) =
              collect_reports-Stores n es (S.add_task_message t s).0
                (rw (nil, collect_reports) at done) in
            rw (nil, collect_reports)
              (
                value ∷ vs,
                rest,
                ap suc long,
                ap (λ l. delivered value ∷ l) begins,
                λ id m. ground (arith, stores id m, L.stored-add_task_message t s id m nil),
              )
      ]

  -- If a write task returns nil, the reports that it has received begin with one delivery for each
  -- of its messages, and it has stored, under its id and nothing else, the values that these
  -- deliver.
  pub kafka_write-Stores :
      (msgs : List String) (es : List Report) (s : World J A S)
      → (write J A S pool msgs es s).1 ≡ some none
      → Stores (length msgs) es s.services (write J A S pool msgs es s).0.services
  unfolding write
  kafka_write-Stores msgs es s done =
      let opened = A.new_producer pool.tcfg.addr pool.tcfg.client_id pool.wcfg.acks s.client in
      elim (Option-cases opened.1) [
        | inr (e, bad) ↦ let done' = rw (bad, write) at done in cc
        | inl fine ↦ elim (Option-cases (produce_all J A S pool msgs opened.0).1) [
          | inr (e, bad) ↦ let done' = rw (fine, bad, write) at done in cc
          | inl sent ↦
              rw (fine, sent, write)
                (collect_reports-Stores (length msgs) es s.services
                  (rw (fine, sent, write) at done))
        ]
      ]

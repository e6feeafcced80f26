-- ===== src/Brokers/Tasks/Rabbitmq/Written.antt =====
-- internal/brokers/rabbitmq.go: what a write task sends, and what it stores.
use mock_server.Prelude.{
  ◌+◌, ◌≡◌, ◌≤◌, refl, ap, subst, sym, ◌∙◌, String, ◌==◌, List, [], ◌∷◌, ◌++◌, map, length,
  append_assoc, append-nil, Option, none, some, Option-cases, inl, inr, arith, eq_refl,
}
use mock_server.Errors.{Error}
use mock_server.Util.Tally.{tally}
use mock_server.Database.Documents.{TaskMessage}
use mock_server.Brokers.Pools.{RabbitMqWriteConfig, RabbitMqMessagePool}
use mock_server.Brokers.Registry.{Codec, rabbitmq, write_task_id}
use mock_server.Brokers.Tasks.{Services, ServicesLaws}
use mock_server.Brokers.Tasks.Rabbitmq.{Amqp, World, write_message, write}

-- A message is sent to its queue if PublishWithContext returns nil, and otherwise not.
pub record AmqpLaws {Table : Type 0} (A : Amqp Table) : Type 0 where
  pub sent : A.State → List (String × String)
  pub sent-publish :
      (cfg : RabbitMqWriteConfig) (q msg : String) (s : A.State)
      → (A.publish cfg q msg s).1 ≡ none
      → sent (A.publish cfg q msg s).0 ≡ sent s ++ (q, msg) ∷ []
  pub sent-publish_failed :
      (cfg : RabbitMqWriteConfig) (q msg : String) (s : A.State) (e : Error)
      → (A.publish cfg q msg s).1 ≡ some e
      → sent (A.publish cfg q msg s).0 ≡ sent s

prefix_of_nil : {T : Type 0} (xs ys : List T) → xs ++ ys ≡ [] → xs ≡ []
prefix_of_nil [] ys h = refl
prefix_of_nil (x ∷ xs) ys h = cc

module _ {J : Codec} {A : Amqp J.Table} (M : AmqpLaws A) {S : Services} (L : ServicesLaws S)
    (pool : RabbitMqMessagePool J.Table) (q : String) where
  -- Between the two states, the first messages were sent and stored, and the second were only sent.
  abbrev pub Sends : List String → List String → World J A S → World J A S → Type 0
  Sends noted unnoted s s' =
      (M.sent s'.amqp ≡ M.sent s.amqp ++ map (λ msg. (q, msg)) (noted ++ unnoted))
      × ((m : String)
          → L.stored s'.services (write_task_id J (rabbitmq pool)) m
            ≡ L.stored s.services (write_task_id J (rabbitmq pool)) m + tally (λ n. n == m) noted)

  abbrev pub Writes : List String → World J A S → World J A S × Option Error → Type 0
  Writes msgs s p =
      (noted unnoted left : List String) × (msgs ≡ noted ++ unnoted ++ left)
      × (length unnoted ≤ 1)
      × (p.1 ≡ none → unnoted ++ left ≡ [])
      × Sends noted unnoted s p.0

  -- Where everything was stored, everything was sent.
  pub Writes-Sends :
      (msgs : List String) (s : World J A S) (p : World J A S × Option Error)
      → Writes msgs s p
      → p.1 ≡ none
      → Sends msgs [] s p.0
  Writes-Sends msgs s p (noted, unnoted, left, split, few, all, sends) h =
      let e : noted ≡ msgs =
        sym (append-nil noted)
        ∙ ap (◌++◌ noted) (sym (all h))
        ∙ sym (append_assoc noted unnoted left)
        ∙ sym split in
      subst (λ n. Sends n [] s p.0) e
        (subst (λ u. Sends noted u s p.0) (prefix_of_nil unnoted left (all h)) sends)

  write_message-Writes :
      (msg : String) (s : World J A S) → Writes (msg ∷ []) s (write_message J A S pool q msg s)
  unfolding write_message
  write_message-Writes msg s =
      let task : TaskMessage = record {
        task_id = write_task_id J (rabbitmq pool);
        message = msg;
      } in
      elim (Option-cases (A.publish pool.wcfg q msg s.amqp).1) [
        | inr (e, h) ↦
            rw (write_message, h)
              (
                [],
                [],
                msg ∷ [],
                refl,
                omega arith,
                λ bad. cc,
                (M.sent-publish_failed _ q msg s.amqp e h ∙ sym (append-nil _), λ m. omega arith),
              )
        | inl h ↦ elim (Option-cases (S.add_task_message task s.services).1) [
          | inr (e, g) ↦
              rw (write_message, h, g)
                (
                  [],
                  msg ∷ [],
                  [],
                  refl,
                  omega arith,
                  λ bad. cc,
                  (
                    M.sent-publish _ q msg s.amqp h,
                    λ m. omega (arith, L.stored-add_failed task s.services e _ m g),
                  ),
                )
          | inl g ↦
              rw (write_message, h, g)
                (
                  msg ∷ [],
                  [],
                  [],
                  refl,
                  omega arith,
                  λ _. refl,
                  (
                    M.sent-publish _ q msg s.amqp h,
                    λ m. ground (
                      arith,
                      eq_refl (write_task_id J (rabbitmq pool)),
                      L.stored-add_task_message task s.services (write_task_id J (rabbitmq pool)) m
                          g,
                    ),
                  ),
                )
        ]
      ]

  pub write_lem : (msgs : List String) (s : World J A S) → Writes msgs s (write J A S pool q msgs s)
  unfolding write
  write_lem [] s =
      ([], [], [], refl, omega arith, λ _. refl, (sym (append-nil _), λ m. omega arith))
  write_lem (msg ∷ msgs) s =
      let s' = (write_message J A S pool q msg s).0 in
      let (noted, unnoted, left, split, few, all, (sent, stored)) = write_message-Writes msg s in
      elim (Option-cases (write_message J A S pool q msg s).1) [
        | inr (e, h) ↦
            rw (write, h)
              (
                noted,
                unnoted,
                left ++ msgs,
                ap (λ l. l ++ msgs) split ∙ append_assoc (noted ++ unnoted) left msgs,
                few,
                λ bad. cc,
                (sent, stored),
              )
        | inl h ↦
            let (sent_one, stored_one) =
              Writes-Sends (msg ∷ []) s _ (write_message-Writes msg s) h in
            let (noted', unnoted', left', split', few', all', (sent', stored')) =
              write_lem msgs s' in
            rw (write, h)
              (
                msg ∷ noted',
                unnoted',
                left',
                ap (◌∷◌ msg) split',
                few',
                all',
                (
                  sent'
                      ∙ ap (λ l. l ++ map (λ n. (q, n)) (noted' ++ unnoted')) sent_one
                      ∙ append_assoc _ ((q, msg) ∷ []) _,
                  λ m. ground (arith, stored' m, stored_one m),
                ),
              )
      ]

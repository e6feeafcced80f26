-- ===== src/Brokers/Tasks/Wired.antt =====
-- internal/brokers and internal/database: the tasks with the stores of the database and with
-- submitToESB.
use mock_server.Prelude.{
  ◌+◌, arith, ◌≡◌, refl, ap, sym, ◌∙◌, String, ◌==◌, List, [], ◌∷◌, ◌++◌, append_assoc, append-nil,
  Option, none, some, inl, inr,
}
use mock_server.Errors.{Error, Result, ok}
use mock_server.Util.Tally.{tally}
use mock_server.Database.Documents.{EsbRecord, MessagePool}
use mock_server.Database.Driver.{Collection, Cache}
use mock_server.Database.Store.{Store}
use mock_server.Database.Records.{get_esb_record, add_task_message, get_message_pool_write_messages}
use mock_server.Database.Messages.{
  MessageLaws, add_task_message_ok, add_task_message_failed, get_task_messages_lem,
}
use mock_server.Coderun.RunScript.{ScriptWorkers}
use mock_server.Brokers.Registry.{Codec, Clients, rabbitmq}
use mock_server.Brokers.Registry.Stored.{record_of, task_ids_agree}
use mock_server.Brokers.Pools.{RabbitMqMessagePool}
use mock_server.Brokers.Esb.{Esb, submit_to_esb, submit_to_esb_lem, Submits, empty_mapper}
use mock_server.Brokers.Tasks.{Services, ServicesLaws}
use mock_server.Brokers.Tasks.Rabbitmq.{Amqp, World, write}
use mock_server.Brokers.Tasks.Rabbitmq.Written.{AmqpLaws, Writes-Sends, write_lem}

-- The messages of write tasks, one task after the other.
abbrev pub messages_of_tasks : {P : Type 0} → List (P × List String) → List String
messages_of_tasks [] = []
messages_of_tasks ((p, msgs) ∷ tasks) = msgs ++ messages_of_tasks tasks

messages_of_tasks-append :
    {P : Type 0} (tasks : List (P × List String)) (p : P) (msgs : List String)
    → messages_of_tasks (tasks ++ (p, msgs) ∷ []) ≡ messages_of_tasks tasks ++ msgs
messages_of_tasks-append [] p msgs = append-nil msgs
messages_of_tasks-append ((p', msgs') ∷ tasks) p msgs =
    ap (◌++◌ msgs') (messages_of_tasks-append tasks p msgs)
    ∙ sym (append_assoc msgs' (messages_of_tasks tasks) msgs)

module _ (W : ScriptWorkers) (unmarshal : String → Result (List String)) (J : Codec) (B : Clients)
    (C : Collection) (K : Cache MessagePool) (E : Collection) (KE : Cache EsbRecord)
    (M : Collection) where
  pub record System : Type 0 where
    pub esb : Esb W unmarshal J B C K
    pub esb_records : Store E KE
    pub messages : M.State

  abbrev pub services : Services
  services = record {
    State = System;
    get_esb_record = λ name s.
        let (esb_records, r) = get_esb_record E KE name s.esb_records in
        (record s { esb_records = esb_records }, r);
    add_task_message = λ t s.
        let (messages, e) = add_task_message M t s.messages in
        (record s { messages = messages }, e);
    submit_to_esb = λ r msgs s.
        let (esb, e) = submit_to_esb W unmarshal J B C K r msgs s.esb in
        (record s { esb = esb }, e);
  }

  pub written-Submits :
      (r : EsbRecord) (msgs : List String) (s : Esb W unmarshal J B C K)
      (p : Esb W unmarshal J B C K × Option Error)
      → Submits W unmarshal J B C K r msgs s p
      → r.mapper_script_name ≡ empty_mapper
      → p.1 ≡ none
      → messages_of_tasks p.0.scheduled ≡ messages_of_tasks s.scheduled ++ msgs
  written-Submits r msgs s (s', some e) sub plain h = cc
  written-Submits r msgs s (s', none) (handler, out, found, inr (named, ran), same) plain h =
      absurd (named plain)
  written-Submits r msgs s (s', none) (handler, out, found, inl (_, kept), same) plain h =
      ap messages_of_tasks same
      ∙ messages_of_tasks-append s.scheduled handler out
      ∙ ap (◌++◌ (messages_of_tasks s.scheduled)) kept

  pub written-Submits_failed :
      (r : EsbRecord) (msgs : List String) (s : Esb W unmarshal J B C K)
      (p : Esb W unmarshal J B C K × Option Error) (e : Error)
      → Submits W unmarshal J B C K r msgs s p
      → p.1 ≡ some e
      → messages_of_tasks p.0.scheduled ≡ messages_of_tasks s.scheduled
  written-Submits_failed r msgs s (s', some x) e same h = ap messages_of_tasks same
  written-Submits_failed r msgs s (s', none) e sub h = cc

  module _ (L : MessageLaws M) where
    unfoldable pub services_laws : ServicesLaws services
    services_laws = record {
      stored = λ s. L.stored s.messages;
      written = λ s. messages_of_tasks s.esb.scheduled;
      stored-get_esb_record = λ name s id m. refl;
      written-get_esb_record = λ name s. refl;
      stored-add_task_message = λ t s id m h. add_task_message_ok L t s.messages id m h;
      stored-add_failed = λ t s e id m h. add_task_message_failed L t s.messages e id m h;
      written-add_task_message = λ t s. refl;
      stored-submit_to_esb = λ r msgs s id m. refl;
      written-submit_to_esb = λ r msgs s plain h.
          written-Submits r msgs s.esb (submit_to_esb W unmarshal J B C K r msgs s.esb)
            (submit_to_esb_lem W unmarshal J B C K r msgs s.esb) plain h;
      written-submit_failed = λ r msgs s e h.
          written-Submits_failed r msgs s.esb (submit_to_esb W unmarshal J B C K r msgs s.esb) e
            (submit_to_esb_lem W unmarshal J B C K r msgs s.esb) h;
    }

    -- If a write task returns nil, and the messages written to its pool can be listed before and
    -- after it, then the later list holds every message as often more than the earlier one as the
    -- task has it.
    pub write_listed :
        {A : Amqp J.Table} (N : AmqpLaws A) (pool : RabbitMqMessagePool J.Table) (q config : String)
        (msgs before after : List String) (s : World J A services)
        → let record_of_pool = record_of J (rabbitmq pool) config in
          let (s', e) = write J A services pool q msgs s in
          e ≡ none
          → get_message_pool_write_messages M record_of_pool s.services.messages ≡ ok before
          → get_message_pool_write_messages M record_of_pool s'.services.messages ≡ ok after
          → (m : String)
          → tally (λ n. n == m) after ≡ tally (λ n. n == m) before + tally (λ n. n == m) msgs
    unfolding get_message_pool_write_messages services_laws
    write_listed {A} N pool q config msgs before after s nil listed listed' m =
        let id = (task_ids_agree J (rabbitmq pool) config).1 in
        let (_, stored) =
          Writes-Sends N services_laws pool q msgs s (write J A services pool q msgs s)
            (write_lem N services_laws pool q msgs s) nil in
        let one = get_task_messages_lem L _ m _ after listed' in
        let two = get_task_messages_lem L _ m _ before listed in
        omega (arith, rw (← id) at one, rw (← id) at two, stored m)

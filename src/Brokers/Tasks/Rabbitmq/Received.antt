-- ===== src/Brokers/Tasks/Rabbitmq/Received.antt =====
-- internal/brokers/rabbitmq.go: which of the messages that a read task receives go on to the pool of
-- its ESB record.
use mock_server.Prelude.{
  ◌≡◌, refl, ap, sym, ◌∙◌, String, List, [], ◌∷◌, ◌++◌, append_assoc, append-nil, Option, none,
  some, Option-cases, inl, inr,
}
use mock_server.Errors.{Error}
use mock_server.Database.Documents.{EsbRecord}
use mock_server.Brokers.Esb.{empty_mapper}
use mock_server.Brokers.Pools.{RabbitMqMessagePool}
use mock_server.Brokers.Registry.{Codec}
use mock_server.Brokers.Tasks.{Services, ServicesLaws, submit_pending}
use mock_server.Brokers.Tasks.Rabbitmq.{
  Amqp, ReadEvent, message, tick, done, Reader, read_tick, read_stored, read_event, read_loop,
}

abbrev pub body_of : ReadEvent → List String
body_of (message body) = body ∷ []
body_of tick = []
body_of done = []

-- The messages among the events.
abbrev pub bodies : List ReadEvent → List String
bodies [] = []
bodies (e ∷ es) = body_of e ++ bodies es

module _ {J : Codec} {A : Amqp J.Table} {S : Services} (L : ServicesLaws S) where
  -- What has been passed on, and then what is still to be passed on.
  abbrev pub passed : Reader J A S → List String
  passed t = L.written t.services ++ t.msgs

  read_stored-passed :
      (t : Reader J A S) (p : S.State × Option Error)
      → L.written p.0 ≡ L.written t.services
      → passed (read_stored J A S t p).0 ≡ passed t
  unfolding read_stored
  read_stored-passed t (s, none) same = ap (λ w. w ++ t.msgs) same
  read_stored-passed t (s, some e) same = ap (λ w. w ++ t.msgs) same

  read_submitted-passed :
      (t : Reader J A S) (p : S.State × Option Error)
      → (p.1 ≡ none → L.written p.0 ≡ L.written t.services ++ t.msgs)
      → ((e : Error) → p.1 ≡ some e → L.written p.0 ≡ L.written t.services)
      → passed (read_tick J A S t (p.0, some p.1)).0 ≡ passed t
  unfolding read_tick
  read_submitted-passed t (s, none) passed_on kept = append-nil (L.written s) ∙ passed_on refl
  read_submitted-passed t (s, some e) passed_on kept = ap (λ w. w ++ t.msgs) (kept e refl)

  read_tick-passed :
      (r : EsbRecord) (t : Reader J A S) (msgs : List String)
      → r.mapper_script_name ≡ empty_mapper
      → t.msgs ≡ msgs
      → passed (read_tick J A S t (submit_pending S (some r) msgs t.services)).0 ≡ passed t
  unfolding read_tick submit_pending
  read_tick-passed r t [] plain same = refl
  read_tick-passed r t (m ∷ ms) plain same =
      read_submitted-passed t (S.submit_to_esb r (m ∷ ms) t.services)
        (λ h. rw same (L.written-submit_to_esb r (m ∷ ms) t.services plain h))
        (λ e h. L.written-submit_failed r (m ∷ ms) t.services e h)

  read_event-passed :
      (pool : RabbitMqMessagePool J.Table) (r : EsbRecord) (e : ReadEvent) (t : Reader J A S)
      → r.mapper_script_name ≡ empty_mapper
      → passed (read_event J A S pool (some r) e t).0 ≡ passed t ++ body_of e
  unfolding read_event
  read_event-passed pool r done t plain = sym (append-nil (passed t))
  read_event-passed pool r tick t plain =
      read_tick-passed r t t.msgs plain refl ∙ sym (append-nil (passed t))
  read_event-passed pool r (message body) t plain =
      read_stored-passed (record t { msgs = t.msgs ++ body ∷ [] }) _
        (L.written-add_task_message _ t.services)
      ∙ sym (append_assoc (L.written t.services) t.msgs (body ∷ []))

  -- The events up to the end of the loop, and those that it leaves.
  abbrev pub Passes : List ReadEvent → Reader J A S → Reader J A S × Option (Option Error) → Type 0
  Passes es t p =
      (seen left : List ReadEvent) × (es ≡ seen ++ left)
      × (p.1 ≡ none → left ≡ [])
      × (passed p.0 ≡ passed t ++ bodies seen)

  -- If the record has no mapper, then whatever the read loop receives and whichever call fails, the
  -- messages passed on to the other pool, followed by those that still wait in the task, are what
  -- they were before the loop, followed by the messages received up to its end, in order. A loop
  -- that has not ended has received everything.
  pub read_loop-passed :
      (pool : RabbitMqMessagePool J.Table) (r : EsbRecord) (es : List ReadEvent) (t : Reader J A S)
      → r.mapper_script_name ≡ empty_mapper
      → Passes es t (read_loop J A S pool (some r) es t)
  unfolding read_loop
  read_loop-passed pool r [] t plain = ([], [], refl, λ _. refl, sym (append-nil (passed t)))
  read_loop-passed pool r (e ∷ es) t plain =
      let t' = (read_event J A S pool (some r) e t).0 in
      let one : passed t' ≡ passed t ++ body_of e = read_event-passed pool r e t plain in
      elim (Option-cases (read_event J A S pool (some r) e t).1) [
        | inl h ↦
            let (seen, left, split, all, more) = read_loop-passed pool r es t' plain in
            rw (read_loop, h)
              (
                e ∷ seen,
                left,
                ap (◌∷◌ e) split,
                all,
                more
                    ∙ ap (λ w. w ++ bodies seen) one
                    ∙ append_assoc (passed t) (body_of e) (bodies seen),
              )
        | inr (result, h) ↦
            rw (read_loop, h)
              (
                e ∷ [],
                es,
                refl,
                λ bad. cc,
                one ∙ ap (◌++◌ (passed t)) (sym (append-nil (body_of e))),
              )
      ]

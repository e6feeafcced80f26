-- ===== src/Brokers/Tasks/Kafka/Received.antt =====
-- internal/brokers/kafka.go: which of the messages that a read task receives go on to the pool of its
-- ESB record, and what it makes of messages that cannot be stored.
use mock_server.Prelude.{
  ◌≡◌, ◌≢◌, ◌⊎◌, refl, ap, subst, sym, ◌∙◌, String, true, false, List, [], ◌∷◌, ◌++◌, map,
  append_assoc, append-nil, Option, none, some, inl, inr, if◌then◌else◌,
}
use mock_server.Errors.{Error}
use mock_server.Database.Documents.{EsbRecord}
use mock_server.Brokers.Esb.{empty_mapper}
use mock_server.Brokers.Pools.{KafkaMessagePool}
use mock_server.Brokers.Registry.{Codec, kafka, read_task_id}
use mock_server.Brokers.Tasks.{Services, ServicesLaws, submit_pending}
use mock_server.Brokers.Tasks.Kafka.{
  KafkaClient, Polled, message, error, other, Reader, stored_message, submitted, read_event,
  read_loop,
}

abbrev pub value_of : Polled → List String
value_of (message value) = value ∷ []
value_of (error e) = []
value_of other = []

-- The messages among what Poll returns.
abbrev pub values : List Polled → List String
values [] = []
values (e ∷ es) = value_of e ++ values es

module _ {J : Codec} {A : KafkaClient} {S : Services} (L : ServicesLaws S) (pool : KafkaMessagePool)
    (r : EsbRecord) where
  -- What has been passed on, and then what is still to be passed on.
  abbrev pub passed : Reader J A S → List String
  passed t = L.written t.services ++ t.msgs

  abbrev IsGoing : Reader J A S → Type 0
  IsGoing t = (t.running ≡ true) × (t.err ≡ none)

  -- A round goes on with the messages given, or ends the loop with an error.
  abbrev Goes : List String → Reader J A S → Type 0
  Goes msgs t = (IsGoing t × (passed t ≡ msgs)) ⊎ ((t.running ≡ false) × (t.err ≢ none))

  stored_message-Goes :
      (t : Reader J A S) (p : S.State × Option Error)
      → IsGoing t
      → L.written p.0 ≡ L.written t.services
      → Goes (passed t) (stored_message J A S t p)
  unfolding stored_message
  stored_message-Goes t (s, e) (running, fine) same =
      rw (stored_message, fine) (inl ((running, fine), ap (λ w. w ++ t.msgs) same))

  submitted-Goes :
      (t : Reader J A S) (p : S.State × Option Error)
      → IsGoing t
      → (p.1 ≡ none → L.written p.0 ≡ L.written t.services ++ t.msgs)
      → Goes (passed t) (submitted J A S t (p.0, some p.1))
  unfolding submitted
  submitted-Goes t (s, none) going on = inl (going, append-nil (L.written s) ∙ on refl)
  submitted-Goes t (s, some e) going on = inr (refl, λ bad. cc)

  pending-Goes :
      (t : Reader J A S) (msgs : List String)
      → IsGoing t
      → r.mapper_script_name ≡ empty_mapper
      → t.msgs ≡ msgs
      → Goes (passed t) (submitted J A S t (submit_pending S (some r) msgs t.services))
  unfolding submitted submit_pending
  pending-Goes t [] going plain same = inl (going, refl)
  pending-Goes t (m ∷ ms) going plain same =
      submitted-Goes t (S.submit_to_esb r (m ∷ ms) t.services) going
        (λ h. rw same (L.written-submit_to_esb r (m ∷ ms) t.services plain h))

  read_event-Goes :
      (e : Polled) (t : Reader J A S)
      → IsGoing t
      → r.mapper_script_name ≡ empty_mapper
      → Goes (passed t ++ value_of e) (read_event J A S pool (some r) e t)
  unfolding read_event
  read_event-Goes (message value) t going plain =
      subst (λ l. Goes l (read_event J A S pool (some r) (message value) t))
        (sym (append_assoc (L.written t.services) t.msgs (value ∷ [])))
        (stored_message-Goes (record t { msgs = t.msgs ++ value ∷ [] }) _ going
          (L.written-add_task_message _ t.services))
  read_event-Goes (error e) t going plain = inr (refl, λ bad. cc)
  read_event-Goes other t going plain =
      subst (λ l. Goes l (read_event J A S pool (some r) other t)) (sym (append-nil (passed t)))
        (pending-Goes t t.msgs going plain refl)

  read_loop_ended :
      (es : List Polled) (t : Reader J A S)
      → t.running ≡ false
      → read_loop J A S pool (some r) es t ≡ t
  unfolding read_loop
  read_loop_ended [] t ended = refl
  read_loop_ended (e ∷ es) t ended = rw ended refl

  read_loop_going :
      (e : Polled) (es : List Polled) (t : Reader J A S)
      → t.running ≡ true
      → read_loop J A S pool (some r) (e ∷ es) t
        ≡ read_loop J A S pool (some r) es (read_event J A S pool (some r) e t)
  unfolding read_loop
  read_loop_going e es t running =
      let t' = read_event J A S pool (some r) e t in
      ap (λ b. if b then read_loop J A S pool (some r) es t' else t) running

  -- If the record has no mapper and the task's error is nil after the loop, then the messages
  -- passed on to the other pool, followed by those that still wait in the task, are what they were
  -- before the loop, followed by all messages that were polled, in order.
  pub kafka_read_loop-passed :
      (es : List Polled) (t : Reader J A S)
      → t.running ≡ true
      → t.err ≡ none
      → r.mapper_script_name ≡ empty_mapper
      → (read_loop J A S pool (some r) es t).err ≡ none
      → passed (read_loop J A S pool (some r) es t) ≡ passed t ++ values es
  unfolding read_loop
  kafka_read_loop-passed [] t running fine plain end = sym (append-nil (passed t))
  kafka_read_loop-passed (e ∷ es) t running fine plain end =
      let t' = read_event J A S pool (some r) e t in
      let go = read_loop_going e es t running in
      let end' = sym (ap (λ u. u.err) go) ∙ end in
      elim (read_event-Goes e t (running, fine) plain) [
        | inl ((running', fine'), one) ↦
            ap passed go
            ∙ kafka_read_loop-passed es t' running' fine' plain end'
            ∙ ap (λ l. l ++ values es) one
            ∙ append_assoc (passed t) (value_of e) (values es)
        | inr (ended, bad) ↦ absurd (bad (rw (read_loop_ended es t' ended) at end'))
      ]

module _ {J : Codec} {A : KafkaClient} {S : Services} (pool : KafkaMessagePool)
    (esb_record : Option EsbRecord) where
  stored_message_fine :
      (t : Reader J A S) (p : S.State × Option Error)
      → t.err ≡ none
      → let t' = stored_message J A S t p in
        (t'.err ≡ none) × (t'.running ≡ t.running) × (t'.msgs ≡ t.msgs)
  unfolding stored_message
  stored_message_fine t (s, e) fine = rw (stored_message, fine) (fine, refl, refl)

  -- Even if no message can be stored, a read task that polls messages goes on with a nil error and
  -- keeps each message.
  pub kafka_read_loop_ignores :
      (msgs : List String) (t : Reader J A S)
      → t.running ≡ true
      → t.err ≡ none
      → let t' = read_loop J A S pool esb_record (map message msgs) t in
        (t'.err ≡ none) × (t'.running ≡ true) × (t'.msgs ≡ t.msgs ++ msgs)
  unfolding read_loop read_event stored_message
  kafka_read_loop_ignores [] t running fine = (fine, running, sym (append-nil t.msgs))
  kafka_read_loop_ignores (m ∷ ms) t running fine =
      let t' = read_event J A S pool esb_record (message m) t in
      let (fine', same, more) =
        stored_message_fine (record t { msgs = t.msgs ++ m ∷ [] })
          (S.add_task_message (record { task_id = read_task_id J (kafka pool); message = m })
            t.services)
          fine in
      let (f, g, h) = kafka_read_loop_ignores ms t' (same ∙ running) fine' in
      let go =
        ap (λ b. if b then read_loop J A S pool esb_record (map message ms) t' else t) running in
      (
        ap (λ u. u.err) go ∙ f,
        ap (λ u. u.running) go ∙ g,
        ap (λ u. u.msgs) go ∙ h ∙ ap (λ l. l ++ ms) more ∙ append_assoc t.msgs (m ∷ []) ms,
      )

-- ===== src/Database/Messages.antt =====
-- internal/database/task_messages.go: the messages that are stored under a task's id, without an
-- order. They are sorted by a field that their documents do not have.
use mock_server.Prelude.{
  ℕ, ◌+◌, ◌≡◌, ◌≢◌, refl, ap, sym, ◌∙◌, String, ◌&&◌, ◌==◌, if◌then◌else◌, List, [], ◌∷◌, map,
  Option, none, some, Option-cases, inl, inr,
}
use mock_server.Errors.{DriverError, no_documents, duplicate_write, failure, Error, ok}
use mock_server.Util.Tally.{tally}
use mock_server.Database.Documents.{
  Doc, TaskMessage, text, encode_task_message, decode_task_message,
}
use mock_server.Database.Driver.{Collection}
use mock_server.Database.Records.{add_task_message, get_task_messages, message_error, messages_of}

-- The documented behaviour of a collection without an index.
pub record MessageLaws (C : Collection) : Type 0 where
  -- how many documents have the two values in the fields
  pub stored : C.State → String → String → ℕ
  pub insert_ok :
      (t : TaskMessage) (s : C.State) (id m : String)
      → (C.insert_one (encode_task_message t) s).1 ≡ none
      → stored (C.insert_one (encode_task_message t) s).0 id m
        ≡ stored s id m + (if t.task_id == id && t.message == m then 1 else 0)
  pub insert_failed :
      (t : TaskMessage) (s : C.State) (e : DriverError) (id m : String)
      → (C.insert_one (encode_task_message t) s).1 ≡ some e
      → stored (C.insert_one (encode_task_message t) s).0 id m ≡ stored s id m
  pub find_ok :
      (sort : String) (s : C.State) (id m : String)
      → (C.find (("task_id", id) ∷ []) sort s).1 ≡ none
      → tally (λ d. text "message" d == m) (C.find (("task_id", id) ∷ []) sort s).0 ≡ stored s id m

message_error-none : (C : Collection) (e : Option DriverError) → message_error C e ≡ none → e ≡ none
unfolding message_error
message_error-none C none h = refl
message_error-none C (some no_documents) h = cc
message_error-none C (some duplicate_write) h = cc
message_error-none C (some (failure t)) h = cc

message_error-some : (C : Collection) (e : Error) → message_error C none ≢ some e
unfolding message_error
message_error-some C e h = cc

messages_of_ok :
    (C : Collection) (ds : List Doc) (e : Option DriverError) (l : List String)
    → messages_of C ds e ≡ ok l
    → (e ≡ none) × (map (λ d. (decode_task_message d).message) ds ≡ l)
unfolding messages_of
messages_of_ok C ds none l h = (refl, cc)
messages_of_ok C ds (some e) l h = cc

module _ {C : Collection} (L : MessageLaws C) where
  pub add_task_message_ok :
      (t : TaskMessage) (s : C.State) (id m : String)
      → (add_task_message C t s).1 ≡ none
      → L.stored (add_task_message C t s).0 id m
        ≡ L.stored s id m + (if t.task_id == id && t.message == m then 1 else 0)
  unfolding add_task_message
  add_task_message_ok t s id m h = L.insert_ok t s id m (message_error-none C _ h)

  pub add_task_message_failed :
      (t : TaskMessage) (s : C.State) (e : Error) (id m : String)
      → (add_task_message C t s).1 ≡ some e
      → L.stored (add_task_message C t s).0 id m ≡ L.stored s id m
  unfolding add_task_message
  add_task_message_failed t s e id m h =
      elim (Option-cases (C.insert_one (encode_task_message t) s).1) [
        | inl fine ↦ absurd (message_error-some C e (sym (ap (message_error C) fine) ∙ h))
        | inr (e', bad) ↦ L.insert_failed t s e' id m bad
      ]

  tally_messages :
      (m : String) (ds : List Doc)
      → tally (λ n. n == m) (map (λ d. (decode_task_message d).message) ds)
        ≡ tally (λ d. text "message" d == m) ds
  unfolding decode_task_message
  tally_messages m [] = refl
  tally_messages m (d ∷ ds) =
      ap (λ n. (if text "message" d == m then 1 else 0) + n) (tally_messages m ds)

  -- A list of the messages holds each of them as often as it is stored.
  pub get_task_messages_lem :
      (id m : String) (s : C.State) (l : List String)
      → get_task_messages C id s ≡ ok l
      → tally (λ n. n == m) l ≡ L.stored s id m
  unfolding get_task_messages
  get_task_messages_lem id m s l h =
      let (fine, same) = messages_of_ok C _ _ l h in
      ap (tally (λ n. n == m)) (sym same)
      ∙ tally_messages m (C.find (("task_id", id) ∷ []) "timestamp" s).0
      ∙ L.find_ok "timestamp" s id m fine

-- ===== src/Brokers/Tasks.antt =====
-- internal/brokers/rabbitmq.go and kafka.go: what the read and write tasks of both brokers use of the
-- rest of the program, as an interface.
pub mod Rabbitmq
pub mod Kafka
pub mod Wired
use mock_server.Prelude.{
  ℕ, ◌+◌, ◌≡◌, ◌≢◌, ◌&&◌, String, List, [], ◌∷◌, ◌++◌, Option, none, some, ◌==◌, if◌then◌else◌,
}
use mock_server.Errors.{Error, no_such_record, Result, ok, err}
use mock_server.Database.Documents.{EsbRecord, TaskMessage}
use mock_server.Brokers.Esb.{empty_mapper}

-- database.GetESBRecord, database.AddTaskMessage and submitToESB.
pub record Services : Type 1 where
  pub State : Type 0
  pub get_esb_record : String → State → State × Result EsbRecord
  pub add_task_message : TaskMessage → State → State × Option Error
  pub submit_to_esb : EsbRecord → List String → State → State × Option Error

-- What the tasks rely on.
pub record ServicesLaws (S : Services) : Type 0 where
  -- how often the message is stored under the task's id
  pub stored : S.State → String → String → ℕ
  -- the messages of all write tasks that were scheduled, in order
  pub written : S.State → List String
  pub stored-get_esb_record :
      (name : String) (s : S.State) (id m : String)
      → stored (S.get_esb_record name s).0 id m ≡ stored s id m
  pub written-get_esb_record :
      (name : String) (s : S.State) → written (S.get_esb_record name s).0 ≡ written s
  pub stored-add_task_message :
      (t : TaskMessage) (s : S.State) (id m : String)
      → (S.add_task_message t s).1 ≡ none
      → stored (S.add_task_message t s).0 id m
        ≡ stored s id m + (if t.task_id == id && t.message == m then 1 else 0)
  pub stored-add_failed :
      (t : TaskMessage) (s : S.State) (e : Error) (id m : String)
      → (S.add_task_message t s).1 ≡ some e
      → stored (S.add_task_message t s).0 id m ≡ stored s id m
  pub written-add_task_message :
      (t : TaskMessage) (s : S.State) → written (S.add_task_message t s).0 ≡ written s
  pub stored-submit_to_esb :
      (r : EsbRecord) (msgs : List String) (s : S.State) (id m : String)
      → stored (S.submit_to_esb r msgs s).0 id m ≡ stored s id m
  -- a record without a mapper passes the messages on as they are
  pub written-submit_to_esb :
      (r : EsbRecord) (msgs : List String) (s : S.State)
      → r.mapper_script_name ≡ empty_mapper
      → (S.submit_to_esb r msgs s).1 ≡ none
      → written (S.submit_to_esb r msgs s).0 ≡ written s ++ msgs
  pub written-submit_failed :
      (r : EsbRecord) (msgs : List String) (s : S.State) (e : Error)
      → (S.submit_to_esb r msgs s).1 ≡ some e
      → written (S.submit_to_esb r msgs s).0 ≡ written s

-- GetESBRecord as the read tasks take it: the record, if there is one, or an error other than
-- ErrNoSuchRecord.
unfoldable pub record_for : Result EsbRecord → Result (Option EsbRecord)
record_for (ok r) = ok (some r)
record_for (err no_such_record) = ok none
record_for (err e) = err e

-- `if has_esb_record && len(t.msgs) > 0`: the call of submitToESB, if it is made.
module _ (S : Services) where
  unfoldable pub submit_pending :
      Option EsbRecord → List String → S.State → S.State × Option (Option Error)
  submit_pending none msgs s = (s, none)
  submit_pending (some r) [] s = (s, none)
  submit_pending (some r) (m ∷ ms) s = let (s', e) = S.submit_to_esb r (m ∷ ms) s in (s', some e)

-- ===== src/Outbox/Protocol.antt =====
-- What internal/outbox/worker.go promises of the rows of the outbox: each row is a state machine, and
-- it may reach its end only behind the record in the topic.
pub mod Rows
pub mod Identity
pub mod Invariants
use go_identity_service.Base.{
  ℕ, suc, ◌≤◌, ◌<◌, Text, ◌≡◌, ◌⊎◌, none, some, List, [], ◌∷◌, ◌++◌, IsMember,
}
use go_identity_service.Kafka.Model.{Record}
use go_identity_service.Outbox.Model.{Event, new, processing, processed, failed}
use go_identity_service.Outbox.Publisher.{record_of}

-- The rows of outbox_events and the records of the topic.
abbrev pub State : Type 0
State = List Event × List Record

-- A record of the topic carries the event: its key, its value and its headers are the event's.
pub record IsDelivered (e : Event) (topic : List Record) : Type 0 where
  pub name : Text
  pub partition : ℕ
  pub offset : ℕ
  pub held : IsMember (record_of name partition offset e) topic

-- What may become of a row while the topic holds the given records.
pub data Move (max_attempts : ℕ) (topic : List Record) (e : Event) : Event → Type 0 where
  kept : Move max_attempts topic e e
  locked :
      (now : ℕ)
      → (e.status ≡ new) ⊎ (e.status ≡ processing)
      → Move max_attempts topic e
          (record e { status = processing; locked_at = some now; attempts = suc e.attempts })
  delivered :
      (now : ℕ)
      → e.status ≡ processing
      → IsDelivered e topic
      → Move max_attempts topic e (record e {
        status = processed;
        processed_at = some now;
        locked_at = none;
        last_error = none;
      })
  released :
      (reason : Text)
      → e.status ≡ processing
      → e.attempts < max_attempts
      → Move max_attempts topic e
          (record e { status = new; locked_at = none; last_error = some reason })
  given_up :
      (reason : Text)
      → e.status ≡ processing
      → max_attempts ≤ e.attempts
      → Move max_attempts topic e
          (record e { status = failed; locked_at = none; last_error = some reason })

pub data Moves (max_attempts : ℕ) (topic : List Record) : List Event → List Event → Type 0 where
  nothing : Moves max_attempts topic [] []
  row :
      {e e' : Event} {es es' : List Event}
      → Move max_attempts topic e e'
      → Moves max_attempts topic es es'
      → Moves max_attempts topic (e ∷ es) (e' ∷ es')

-- A step writes the record of a row, or moves rows.
pub data Step (max_attempts : ℕ) : State → State → Type 0 where
  wrote :
      {es : List Event} {topic : List Record} (e : Event) (name : Text) (partition offset : ℕ)
      → IsMember e es
      → Step max_attempts (es, topic) (es, topic ++ record_of name partition offset e ∷ [])
  moved :
      {es es' : List Event} {topic : List Record}
      → Moves max_attempts topic es es'
      → Step max_attempts (es, topic) (es', topic)

pub data Steps (max_attempts : ℕ) (s : State) : State → Type 0 where
  start : Steps max_attempts s s
  next : {t u : State} → Steps max_attempts s t → Step max_attempts t u → Steps max_attempts s u

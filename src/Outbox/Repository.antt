-- ===== src/Outbox/Repository.antt =====
-- internal/outbox/postgres_repository.go over the table of migrations/006 and 009.
pub mod Effects
use go_identity_service.Base.{
  ℕ, suc, ◌+◌, ℤ, pos, negsuc, int_eq, int_leb, Text, text_eq, Bool, true, false, not, is_empty,
  ◌&&◌, ◌||◌, ltb, leb, Option, none, some, List, [], ◌∷◌, ◌++◌, map, any, filter, take, sort_by,
  update_where, if◌then◌else◌,
}
use go_identity_service.Apperror.{Error, pg_error, wrapped, message, Result, ok, err}
use go_identity_service.World.{
  World, Tables, M, ◌>>=◌, pure, fail, map_err, call, sql_now, time_now,
}
use go_identity_service.Outbox.Model.{
  Event, Status, new, processing, processed, failed, content_type_json, content_type_protobuf,
}

-- The check constraints on content_type and proto_message.
unfoldable pub content_is_valid : Event → Bool
content_is_valid e =
    (text_eq e.content_type content_type_json || text_eq e.content_type content_type_protobuf)
    && (not (text_eq e.content_type content_type_protobuf) || not (is_empty e.proto_message))

unfoldable pub insert_event : Event → M Event
unfolding content_is_valid
insert_event e w =
    let id = w.sequences.event_id in
    let w' : World = record w { sequences = record w.sequences { event_id = suc id } } in
    let created : Event = record e {
      id = pos id;
      status = new;
      attempts = 0;
      last_error = none;
      locked_at = none;
      processed_at = none;
      created_at = sql_now w;
    } in
    if content_is_valid e
    then (
      ok created,
      record w' {
        tables = record w.tables { outbox_events = w.tables.outbox_events ++ created ∷ [] };
      },
    )
    else (err (pg_error "23514"), w')

unfoldable pub create : Event → M Event
unfolding insert_event
create e = map_err (wrapped "insert outbox event") (call (insert_event e))

unfoldable pub is_processing : Event → Bool
is_processing e = elim e.status [ processing ↦ true | _ ↦ false ]

-- locked_at is not null and locked_at < now - lockTimeout
unfoldable pub lock_is_over : ℕ → ℕ → Event → Bool
lock_is_over now lock_timeout e = elim e.locked_at [
  | none ↦ false
  | some at ↦ ltb (at + lock_timeout) now
]

unfoldable pub is_due : ℕ → ℕ → Event → Bool
unfolding is_processing lock_is_over
is_due now lock_timeout e = elim e.status [
  | new ↦ true
  | processing ↦ lock_is_over now lock_timeout e
  | _ ↦ false
]

unfoldable pub has_event_id : ℤ → Event → Bool
has_event_id id e = int_eq e.id id

abbrev pub lock : ℕ → Event → Event
lock now e = record e { status = processing; locked_at = some now; attempts = suc e.attempts }

unfoldable pub select_due : ℕ → ℕ → ℕ → List Event → List Event
unfolding is_due
select_due limit now lock_timeout events =
    take limit (sort_by (λ e. e.created_at) (filter (is_due now lock_timeout) events))

unfoldable pub is_among : List Event → Event → Bool
unfolding has_event_id
is_among picked e = any (has_event_id e.id) picked

unfoldable pub lock_due : ℕ → ℕ → ℕ → M (List Event)
unfolding select_due is_among
lock_due limit now lock_timeout w =
    let events = w.tables.outbox_events in
    let picked = select_due limit now lock_timeout events in
    (
      ok (map (lock (sql_now w)) picked),
      record w {
        tables = record w.tables {
          outbox_events = update_where (is_among picked) (lock (sql_now w)) events;
        };
      },
    )

unfoldable pub fetch_batch : ℤ → ℕ → M (List Event)
unfolding lock_due
fetch_batch (negsuc n) lock_timeout = pure []
fetch_batch (pos limit) lock_timeout = if leb limit 0 then pure [] else do
  now ← time_now
  map_err (wrapped "fetch outbox events") (call (lock_due limit now lock_timeout))

unfoldable pub in_processing : ℤ → Event → Bool
unfolding has_event_id is_processing
in_processing id e = has_event_id id e && is_processing e

abbrev pub set_processed : ℕ → Event → Event
set_processed now e = record e {
  status = processed;
  processed_at = some now;
  locked_at = none;
  last_error = none;
}

abbrev pub set_failed : Text → ℕ → Event → Event
set_failed reason max_attempts e = record e {
  status = if leb max_attempts e.attempts then failed else new;
  locked_at = none;
  last_error = some reason;
}

-- UPDATE outbox_events ... WHERE id = $1 and status = 'PROCESSING'; the result is RowsAffected.
unfoldable pub update_event : ℤ → (ℕ → Event → Event) → M Bool
unfolding in_processing
update_event id f w =
    let events = w.tables.outbox_events in
    (
      ok (any (in_processing id) events),
      record w {
        tables = record w.tables {
          outbox_events = update_where (in_processing id) (f (sql_now w)) events;
        };
      },
    )

unfoldable pub mark_processed : ℤ → M (Unit {0})
unfolding update_event
mark_processed id = do
  affected ← map_err (wrapped "mark outbox events") (call (update_event id set_processed))
  if affected then pure tt else fail (message "outbox event not found or not processing")

-- A reason that is no valid UTF-8 (`none`) is refused by the database.
abbrev pub failed_update : ℤ → Option Text → ℕ → M Bool
failed_update id none max_attempts = fail (pg_error "22021")
failed_update id (some reason) max_attempts = update_event id (λ _. set_failed reason max_attempts)

unfoldable pub mark_failed : ℤ → Option Text → ℕ → M (Unit {0})
unfolding update_event fail
mark_failed id reason max_attempts = do
  affected ← map_err (wrapped "mark outbox events") (call (failed_update id reason max_attempts))
  if affected then pure tt else fail (message "outbox event not found or not processing")

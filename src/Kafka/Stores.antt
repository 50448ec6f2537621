-- ===== src/Kafka/Stores.antt =====
-- internal/kafkaconsumer/postgres_idempotency_store.go and internal/audit/postgres_store.go, over the
-- tables of migrations/007 and 008.
use go_identity_service.Base.{
  ℕ, suc, pos, Text, text_eq, Bool, [], ◌∷◌, ◌++◌, any, filter, length, if◌then◌else◌,
}
use go_identity_service.Apperror.{pg_error, wrapped, ok, err}
use go_identity_service.World.{World, M, map_err, call, sql_now}
use go_identity_service.Kafka.Model.{Event, UserAuditEvent, ProcessedEvent}

unfoldable pub is_row_of : Text → ProcessedEvent → Bool
is_row_of event_id p = text_eq p.event_id event_id

unfoldable pub is_audit_of : Text → UserAuditEvent → Bool
is_audit_of source_event_id a = text_eq a.source_event_id source_event_id

unfoldable pub select_processed : Text → M Bool
unfolding is_row_of
select_processed event_id w = (ok (any (is_row_of event_id) w.tables.processed_kafka_events), w)

-- The error of no row is the answer `false`.
unfoldable pub was_processed : Text → M Bool
unfolding select_processed
was_processed event_id =
    map_err (wrapped "error querying processed kafka_events") (call (select_processed event_id))

abbrev pub row_of : Event → ProcessedEvent
row_of e = record {
  event_id = e.event_id;
  topic = e.topic;
  partition = e.partition;
  offset = e.offset;
  event_type = e.event_type;
}

-- ON CONFLICT (event_id) DO NOTHING
unfoldable pub insert_processed : Event → M (Unit {0})
unfolding is_row_of
insert_processed e w =
    let rows = w.tables.processed_kafka_events in
    if any (is_row_of e.event_id) rows then (ok tt, w) else (
      ok tt,
      record w { tables = record w.tables { processed_kafka_events = rows ++ row_of e ∷ [] } },
    )

unfoldable pub mark_processed : Event → M (Unit {0})
unfolding insert_processed
mark_processed e = map_err (wrapped "mark kafka event processed") (call (insert_processed e))

unfoldable pub insert_audit : UserAuditEvent → M UserAuditEvent
unfolding is_audit_of
insert_audit a w =
    let id = w.sequences.audit_id in
    let w' : World = record w { sequences = record w.sequences { audit_id = suc id } } in
    let created : UserAuditEvent = record a { id = pos id; created_at = sql_now w } in
    let rows = w.tables.user_audit_events in
    if any (is_audit_of a.source_event_id) rows then (err (pg_error "23505"), w') else (
      ok created,
      record w' { tables = record w.tables { user_audit_events = rows ++ created ∷ [] } },
    )

unfoldable pub create_user_audit_event : UserAuditEvent → M UserAuditEvent
unfolding insert_audit
create_user_audit_event a = map_err (wrapped "create audit event") (call (insert_audit a))

select_audit_count : Text → M ℕ
unfolding is_audit_of
select_audit_count source_event_id w =
    (ok (length (filter (is_audit_of source_event_id) w.tables.user_audit_events)), w)

unfoldable pub count_by_source_event_id : Text → M ℕ
unfolding select_audit_count
count_by_source_event_id source_event_id =
    map_err (wrapped "count user audit events by source event id")
      (call (select_audit_count source_event_id))

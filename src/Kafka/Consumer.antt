-- ===== src/Kafka/Consumer.antt =====
-- internal/kafkaconsumer/consumer.go: how fetched records are processed, batch after batch.
pub mod Decoding
pub mod Marking
pub mod Idempotence
pub mod Untouched
pub mod Offsets
use go_identity_service.Base.{
  ℕ, suc, Text, text_eq, codes, is_empty, Bool, true, false, ◌&&◌, ◌==◌, List, [], ◌∷◌,
  if◌then◌else◌,
}
use go_identity_service.Apperror.{Error, message, wrapped, Result, ok, err}
use go_identity_service.World.{World, M, ◌>>=◌, ◌>>◌, pure, fail, map_err, attempt, call}
use go_identity_service.Outbox.Model.{content_type_protobuf}
use go_identity_service.Kafka.Model.{Event, Record}
use go_identity_service.Kafka.Stores
use go_identity_service.Kafka.Tx.{within_tx}
use go_identity_service.Kafka.Handler.{EventHandler}

-- headers[key] after the loop over the record's headers: the last one wins, and "" if there is none.
unfoldable pub header_from : Text → Text → List (Text × Text) → Text
header_from found key [] = found
header_from found key ((k, v) ∷ hs) = header_from (if text_eq k key then v else found) key hs

unfoldable pub header : Text → List (Text × Text) → Text
unfolding header_from
header = header_from []

abbrev pub required : Text → Error → M (Unit {0})
required value e = if is_empty value then fail e else pure tt

unfoldable pub event_from_record : Record → M Event
unfolding header
event_from_record r = do
  let event_id = header (codes "event_id") r.headers
  required event_id (message "kafka record missing event_id header")
  let event_type = header (codes "event_type") r.headers
  required event_type (message "kafka record missing event_type header")
  let aggregate_type = header (codes "aggregate_type") r.headers
  required aggregate_type (message "kafka record missing aggregate_type header")
  let aggregate_id = header (codes "aggregate_id") r.headers
  required aggregate_id (message "kafka record missing aggregate_id header")
  let content_type = header (codes "content_type") r.headers
  required content_type (message "kafka record missing content_type header")
  let proto_message = header (codes "proto_message") r.headers
  if text_eq content_type content_type_protobuf && is_empty proto_message
      then fail (message "kafka protobuf record missing proto_message header")
      else pure tt
  let event_version = header (codes "event_version") r.headers
  required event_version (message "kafka record missing event_version header")
  pure (record {
    event_id = event_id;
    event_type = event_type;
    aggregate_type = aggregate_type;
    aggregate_id = aggregate_id;
    content_type = content_type;
    proto_message = proto_message;
    event_version = event_version;
    payload = r.value;
    topic = r.topic;
    partition = r.partition;
    offset = r.offset;
  })

-- eventTypeFromRecord, the label of the metrics: the first header wins.
unfoldable pub event_type_from_headers : List (Text × Text) → Text
event_type_from_headers [] = codes "unknown"
event_type_from_headers ((k, v) ∷ hs) =
    if text_eq k (codes "event_type") then v else event_type_from_headers hs

-- client.CommitRecords: the group's next offset in the record's partition.
unfoldable pub commit_offset : Record → M (Unit {0})
commit_offset r w =
    (ok tt, record w { committed = λ p. if p == r.partition then suc r.offset else w.committed p })

unfoldable pub commit_records : Record → M (Unit {0})
unfolding commit_offset
commit_records r = map_err (wrapped "commit kafka record") (call (commit_offset r))

-- What PollFetches gives: errors, or the records by partition.
pub data Poll : Type 0 where
  fetch_errors : Poll
  fetched : List (List Record) → Poll

module _ (handle : EventHandler) where
  -- The result is `duplicate`.
  unfoldable pub process_tx : Event → M Bool
  process_tx event = do
    processed ← Stores.was_processed event.event_id
    if processed then pure true else do handle event; Stores.mark_processed event; pure false

  unfoldable pub process_record : Record → M (Unit {0})
  process_record r = do event ← event_from_record r; within_tx (process_tx event); commit_records r

  -- One partition of processFetches: the first record that fails ends it.
  unfoldable pub next_record : M (Unit {0}) → Result (Unit {0}) → M (Unit {0})
  next_record rest (ok _) = rest
  next_record rest (err e) = pure tt

  unfoldable pub process_partition : List Record → M (Unit {0})
  unfolding next_record
  process_partition [] = pure tt
  process_partition (r ∷ rs) = do
    result ← attempt (process_record r)
    next_record (process_partition rs) result

  unfoldable pub process_fetches : List (List Record) → M (Unit {0})
  process_fetches [] = pure tt
  process_fetches (p ∷ ps) = do process_partition p; process_fetches ps

  -- Consumer.Run over the polls until the context is done. A poll with errors is logged.
  unfoldable pub run : List Poll → M (Unit {0})
  run [] = pure tt
  run (fetch_errors ∷ polls) = run polls
  run (fetched partitions ∷ polls) = do process_fetches partitions; run polls

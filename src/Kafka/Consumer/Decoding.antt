-- ===== src/Kafka/Consumer/Decoding.antt =====
-- eventFromRecord of internal/kafkaconsumer/consumer.go reads what Publish of
-- internal/outbox/kafka_publisher.go writes.
use go_identity_service.Base.{
  ℕ, Text, text_eq, codes, is_empty, format_int, is_empty-format_int, ◌≡◌, refl, false, ◌&&◌,
}
use go_identity_service.Apperror.{ok}
use go_identity_service.World.{World, ◌>>=◌, pure, fail}
use go_identity_service.Outbox
use go_identity_service.Outbox.Model.{content_type_protobuf}
use go_identity_service.Outbox.Publisher.{record_of, message_headers}
use go_identity_service.Kafka.Model.{Event}
use go_identity_service.Kafka.Consumer.{header, event_from_record}

-- The event that the consumer makes of the record of an outbox event.
abbrev pub consumed : Text → ℕ → ℕ → Outbox.Model.Event → Event
consumed topic partition offset e = record {
  event_id = format_int e.id;
  event_type = e.event_type;
  aggregate_type = e.aggregate_type;
  aggregate_id = e.aggregate_id;
  content_type = e.content_type;
  proto_message = e.proto_message;
  event_version = e.event_version;
  payload = e.payload;
  topic = topic;
  partition = partition;
  offset = offset;
}

-- No header that the consumer wants is empty.
pub record IsComplete (e : Outbox.Model.Event) : Type 0 where
  pub event_type : is_empty e.event_type ≡ false
  pub aggregate_type : is_empty e.aggregate_type ≡ false
  pub aggregate_id : is_empty e.aggregate_id ≡ false
  pub content_type : is_empty e.content_type ≡ false
  pub proto_message :
      (text_eq e.content_type content_type_protobuf && is_empty e.proto_message) ≡ false
  pub event_version : is_empty e.event_version ≡ false

module _ (e : Outbox.Model.Event) where
  header-event_id : header (codes "event_id") (message_headers e) ≡ format_int e.id
  unfolding header codes text_eq
  header-event_id = refl

  header-event_type : header (codes "event_type") (message_headers e) ≡ e.event_type
  unfolding header codes text_eq
  header-event_type = refl

  header-aggregate_type : header (codes "aggregate_type") (message_headers e) ≡ e.aggregate_type
  unfolding header codes text_eq
  header-aggregate_type = refl

  header-aggregate_id : header (codes "aggregate_id") (message_headers e) ≡ e.aggregate_id
  unfolding header codes text_eq
  header-aggregate_id = refl

  header-content_type : header (codes "content_type") (message_headers e) ≡ e.content_type
  unfolding header codes text_eq
  header-content_type = refl

  header-proto_message : header (codes "proto_message") (message_headers e) ≡ e.proto_message
  unfolding header codes text_eq
  header-proto_message = refl

  header-event_version : header (codes "event_version") (message_headers e) ≡ e.event_version
  unfolding header codes text_eq
  header-event_version = refl

ruleset message_laws = (
  header-event_id, header-event_type, header-aggregate_type, header-aggregate_id,
  header-content_type, header-proto_message, header-event_version,
)

-- The record of an event that leaves no header which the consumer wants empty is decoded to the same
-- event, with its id in decimal and the place of its record, and decoding changes nothing.
pub event_from_record-record_of :
    (topic : Text) (partition offset : ℕ) (e : Outbox.Model.Event) (w : World)
    → IsComplete e
    → event_from_record (record_of topic partition offset e) w
      ≡ (ok (consumed topic partition offset e), w)
unfolding event_from_record record_of ◌>>=◌ pure fail
event_from_record-record_of topic partition offset e w c = simp (
  message_laws, is_empty-format_int, c.event_type, c.aggregate_type, c.aggregate_id, c.content_type,
  c.proto_message, c.event_version,
)

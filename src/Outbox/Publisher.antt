-- ===== src/Outbox/Publisher.antt =====
-- KafkaPublisher.Publish of internal/outbox/kafka_publisher.go. The broker gives a record the next
-- offset of its partition.
use go_identity_service.Base.{
  ℕ, Text, codes, Bool, List, [], ◌∷◌, ◌++◌, ◌==◌, filter, length, format_int,
}
use go_identity_service.Apperror.{wrapped, ok}
use go_identity_service.External.{External}
use go_identity_service.World.{M, map_err, call}
use go_identity_service.Kafka.Model.{Record}
use go_identity_service.Outbox.Model.{Event}

unfoldable pub in_partition : ℕ → Record → Bool
in_partition p r = r.partition == p

abbrev pub message_key : Event → Text
message_key e = e.aggregate_type ++ codes ":" ++ e.aggregate_id

abbrev pub message_headers : Event → List (Text × Text)
message_headers e =
    (codes "event_id", format_int e.id)
    ∷ (codes "event_type", e.event_type)
    ∷ (codes "aggregate_type", e.aggregate_type)
    ∷ (codes "aggregate_id", e.aggregate_id)
    ∷ (codes "content_type", e.content_type)
    ∷ (codes "proto_message", e.proto_message)
    ∷ (codes "event_version", e.event_version)
    ∷ []

unfoldable pub record_of : Text → ℕ → ℕ → Event → Record
record_of topic partition offset e = record {
  topic = topic;
  key = message_key e;
  value = e.payload;
  headers = message_headers e;
  timestamp = e.created_at;
  partition = partition;
  offset = offset;
}

module _ (x : External) (topic : Text) where
  unfoldable pub produce : Event → M (Unit {0})
  unfolding in_partition record_of
  produce e w =
      let p = x.partition_of (message_key e) in
      let r = record_of topic p (length (filter (in_partition p) w.topic)) e in
      (ok tt, record w { topic = w.topic ++ r ∷ [] })

  unfoldable pub publish : Event → M (Unit {0})
  unfolding produce
  publish e = map_err (wrapped "produce kafka record") (call (produce e))

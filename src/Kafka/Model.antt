-- ===== src/Kafka/Model.antt =====
-- internal/kafkaconsumer/model.go, the record type of the Kafka client (kgo.Record), and
-- internal/audit/model.go.
use go_identity_service.Base.{ℕ, ℤ, Text, List}

pub record Record : Type 0 where
  pub topic : Text
  pub key : Text
  pub value : List ℕ
  pub headers : List (Text × Text)
  pub timestamp : ℕ
  pub partition : ℕ
  pub offset : ℕ

pub record Event : Type 0 where
  pub event_id : Text
  pub event_type : Text
  pub aggregate_type : Text
  pub aggregate_id : Text
  pub content_type : Text
  pub proto_message : Text
  pub event_version : Text
  pub payload : List ℕ
  pub topic : Text
  pub partition : ℕ
  pub offset : ℕ

pub record UserAuditEvent : Type 0 where
  pub id : ℤ
  pub source_event_id : Text
  pub user_id : ℤ
  pub event_type : Text
  pub payload : Text
  pub created_at : ℕ

-- A row of processed_kafka_events.
pub record ProcessedEvent : Type 0 where
  pub event_id : Text
  pub topic : Text
  pub partition : ℕ
  pub offset : ℕ
  pub event_type : Text

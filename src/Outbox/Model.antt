-- ===== src/Outbox/Model.antt =====
-- internal/outbox/model.go, and the constants of internal/eventcodec/user.go.
use go_identity_service.Base.{ℕ, ℤ, Text, Option, List, codes}

pub data Status : Type 0 where
  new processing processed failed : Status

abbrev pub aggregate_user : Text
aggregate_user = codes "user"

abbrev pub event_type_user_registered : Text
event_type_user_registered = codes "user.registered"

abbrev pub content_type_json : Text
content_type_json = codes "application/json"

abbrev pub content_type_protobuf : Text
content_type_protobuf = codes "application/x-protobuf"

abbrev pub proto_message_user_registered : Text
proto_message_user_registered = codes "events.user.v1.UserRegistered"

abbrev pub event_version_v1 : Text
event_version_v1 = codes "v1"

pub record Event : Type 0 where
  pub id : ℤ
  pub event_type : Text
  pub aggregate_type : Text
  pub aggregate_id : Text
  pub payload : List ℕ
  pub content_type : Text
  pub proto_message : Text
  pub event_version : Text
  pub status : Status
  pub attempts : ℕ
  pub last_error : Option Text
  pub locked_at : Option ℕ
  pub processed_at : Option ℕ
  pub created_at : ℕ

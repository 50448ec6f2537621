-- ===== src/Kafka/Handler.antt =====
-- internal/kafkaconsumer/router.go and user_registered_handler.go.
use go_identity_service.Base.{ℤ, pos, Text, text_eq, not, List, [], ◌∷◌, if◌then◌else◌}
use go_identity_service.Apperror.{message, wrapped}
use go_identity_service.External.{External}
use go_identity_service.World.{M, ◌>>=◌, ◌>>◌, pure, fail, map_err, of_option}
use go_identity_service.Outbox.Model.{
  content_type_protobuf, proto_message_user_registered, event_version_v1,
  event_type_user_registered,
}
use go_identity_service.Kafka.Model.{Event, UserAuditEvent}
use go_identity_service.Kafka.Stores.{create_user_audit_event}

abbrev pub audit_of : Event → ℤ → Text → UserAuditEvent
audit_of e user_id payload = record {
  id = pos 0;
  source_event_id = e.event_id;
  user_id = user_id;
  event_type = e.event_type;
  payload = payload;
  created_at = 0;
}

abbrev pub EventHandler : Type 0
EventHandler = Event → M (Unit {0})

module _ (x : External) where
  -- UserRegisteredHandler.Handle
  unfoldable pub handle_user_registered : EventHandler
  handle_user_registered e =
      if not (text_eq e.content_type content_type_protobuf)
      then fail (message "unsupported user registered content type")
      else if not (text_eq e.proto_message proto_message_user_registered)
      then fail (message "unsupported user registered proto message")
      else if not (text_eq e.event_version event_version_v1)
      then fail (message "unsupported user registered event version")
      else do
        payload ←
            map_err (wrapped "unmarshal user registered protobuf")
              (of_option (x.proto_unmarshal e.payload))
        audit_payload ←
            map_err (wrapped "marshal user registered audit payload")
              (of_option (x.encode_audit payload))
        map_err (wrapped "create user audit event")
            (create_user_audit_event (audit_of e payload.user_id audit_payload))
        pure tt

abbrev pub Router : Type 0
Router = List (Text × EventHandler)

-- Router.Register: a later handler of the same type takes the place of the earlier.
unfoldable pub register : Router → Text → EventHandler → Router
register r event_type h = (event_type, h) ∷ r

-- Router.Handle
unfoldable pub route : Router → EventHandler
route [] e = fail (message "no handler registered for event type")
route ((event_type, h) ∷ r) e = if text_eq event_type e.event_type then h e else route r e

-- The router of app.go.
unfoldable pub app_router : External → Router
unfolding register
app_router x = register [] event_type_user_registered (handle_user_registered x)

-- ===== src/Tests/Messages.antt =====
-- The Kafka consumer on the sample installation.
use go_identity_service.Kafka.Consumer.Marking.{is_processed}
use go_identity_service.Base.{format_int, ◌<◌, codes, text_eq, ◌≡◌, refl, true, [], ◌∷◌, arith, any}
use go_identity_service.Apperror.{Error, Result, ok, err}
use go_identity_service.World.{
  World, ◌>>=◌, pure, fail, on_err, attempt, of_option, call, begin, commit, rollback,
}
use go_identity_service.World.Rules.{pair_path}
use go_identity_service.Outbox.Publisher.{record_of}
use go_identity_service.Kafka.Model.{Record}
use go_identity_service.Kafka.Handler.{EventHandler, app_router, route, handle_user_registered}
use go_identity_service.Kafka.Stores
use go_identity_service.Kafka.Tx.{within_tx}
use go_identity_service.Kafka.Consumer.{
  event_from_record, process_record, process_tx, commit_records, process_partition,
}
use go_identity_service.Kafka.Consumer.Decoding.{consumed, IsComplete, event_from_record-record_of}
use go_identity_service.Kafka.Consumer.Idempotence.{
  Processed, process_record-Processed, process_record_duplicate, process_record_once,
}
use go_identity_service.Kafka.Consumer.Untouched.{app_router-offsets}
use go_identity_service.Kafka.Consumer.Offsets.{
  advanced, committed-process_record, failed_record_passed_over,
}
use go_identity_service.Tests.Sample.{external, world, event, published}

abbrev handler : EventHandler
handler = route (app_router external)

event-IsComplete : IsComplete event
unfolding codes text_eq
event-IsComplete = record {
  event_type = refl;
  aggregate_type = refl;
  aggregate_id = refl;
  content_type = refl;
  proto_message = refl;
  event_version = refl;
}

event_from_record-record_of_example :
    event_from_record (record_of (codes "users") 0 0 event) world
    ≡ (ok (consumed (codes "users") 0 0 event), world)
event_from_record-record_of_example =
    event_from_record-record_of (codes "users") 0 0 event world event-IsComplete

process_record-Processed_example :
    Processed handler (published 0 0) world (process_record handler (published 0 0) world)
process_record-Processed_example = process_record-Processed handler (published 0 0) world

first : Result (Unit {0}) × World
first = process_record handler (published 0 0) world

first_succeeds : first.0 ≡ ok tt
unfolding first process_record process_tx event_from_record record_of text_eq codes format_int ◌>>=◌
    pure fail of_option on_err attempt call begin commit rollback within_tx Stores.was_processed
    Stores.mark_processed Stores.create_user_audit_event any route app_router handle_user_registered
    commit_records
first_succeeds = refl

process_record_once_example :
    (process_record handler (published 0 0) first.1).1.tables ≡ first.1.tables
unfolding first
process_record_once_example =
    process_record_once handler (published 0 0) world first.1 first_succeeds refl

first_is_processed : is_processed (codes "1") first.1.tables ≡ true
unfolding first process_record process_tx event_from_record record_of text_eq codes format_int ◌>>=◌
    pure fail of_option on_err attempt call begin commit rollback within_tx Stores.was_processed
    Stores.mark_processed Stores.create_user_audit_event any route app_router handle_user_registered
    commit_records
first_is_processed = refl

published_decoded :
    (event_from_record (published 0 0) first.1).0 ≡ ok (consumed (codes "users") 0 0 event)
unfolding event_from_record ◌>>=◌ record_of text_eq codes format_int pure
published_decoded = refl

process_record_duplicate_example :
    (process_record handler (published 0 0) first.1).1.tables ≡ first.1.tables
unfolding format_int codes
process_record_duplicate_example =
    process_record_duplicate handler (published 0 0) first.1 (consumed (codes "users") 0 0 event)
      published_decoded first_is_processed

committed-process_record_example : first.1.committed ≡ advanced (published 0 0) world.committed
unfolding first
committed-process_record_example =
    committed-process_record handler (app_router-offsets external) (published 0 0) world
      (pair_path first first_succeeds)

-- A record that no handler can read.
abbrev broken : Record
broken = record (published 0 0) { headers = [] }

abbrev broken_later : Record
broken_later = record (published 0 7) { headers = [] }

broken_fails : (e : Error) × ((process_record handler broken world).0 ≡ err e)
unfolding process_record event_from_record ◌>>=◌ fail
broken_fails = (_, refl)

next_succeeds :
    (process_record handler
      (published 0 1)
      (process_partition handler (broken ∷ published 0 7 ∷ []) world).1).0
    ≡ ok tt
unfolding process_record process_tx event_from_record record_of text_eq codes format_int ◌>>=◌ pure
    fail of_option on_err attempt call begin commit rollback within_tx Stores.was_processed
    Stores.mark_processed Stores.create_user_audit_event any route app_router handle_user_registered
    commit_records process_partition
next_succeeds = refl

passed : World
passed = (process_partition handler (broken ∷ published 0 7 ∷ []) world).1

failed_record_passed_over_example :
    (passed ≡ (process_record handler broken world).1)
    × (0 < (process_partition handler (published 0 1 ∷ broken_later ∷ []) passed).1.committed 0)
unfolding passed record_of
failed_record_passed_over_example =
    failed_record_passed_over handler (app_router-offsets external) broken (published 0 1)
      (published 0 7 ∷ []) (broken_later ∷ []) world broken_fails.1 next_succeeds refl (omega arith)
      (omega arith, tt)

-- ===== src/Tests/Delivery.antt =====
-- The outbox worker on the sample installation.
use go_identity_service.Base.{
  pos, codes, ◌≡◌, refl, ap, sym, none, some, List, [], ◌∷◌, IsMember, first, later, ◌∙◌, sort_by,
  arith, filter,
}
use go_identity_service.World.{World, time_now}
use go_identity_service.Outbox.Model.{Event, new, processed}
use go_identity_service.Outbox.Repository.{select_due}
use go_identity_service.Outbox.Protocol.{Steps, IsDelivered}
use go_identity_service.Outbox.Protocol.Identity.{HasDistinctIds}
use go_identity_service.Outbox.Protocol.Invariants.{was_processed}
use go_identity_service.Outbox.Worker.{WorkerConfig, process_once}
use go_identity_service.Outbox.Worker.Goes.{view}
use go_identity_service.Outbox.Worker.Refinement.{process_once-Steps}
use go_identity_service.Outbox.Worker.Soundness.{IsSound, process_once-IsSound, process_once_final}
use go_identity_service.Outbox.Worker.Progress.{IsProcessed}
use go_identity_service.Outbox.Worker.Delivery.{process_once_delivers}
use go_identity_service.Tests.Sample.{external, world, event}

abbrev config : WorkerConfig
config = record { topic = codes "users"; batch_size = pos 10; max_attempts = 3; lock_timeout = 60 }

abbrev waiting : Event
waiting = record event { status = new; attempts = 0; locked_at = none }

abbrev settled : Event
settled = record event { status = processed; locked_at = none; processed_at = some 7 }

abbrev with_rows : List Event → World
with_rows rows = record world { tables = record world.tables { outbox_events = rows } }

one_row : (e : Event) → HasDistinctIds (e ∷ [])
one_row e = ((λ a h p. elim h [ ]), tt)

only_row : {a e : Event} → IsMember a (e ∷ []) → a ≡ e
only_row (first p) = p
only_row (later k) = elim k [ ]

waiting-IsSound : IsSound config (with_rows (waiting ∷ []))
waiting-IsSound = record {
  distinct = one_row waiting;
  lossless = record {
    at = λ e h p. absurd (not_new (sym (ap (λ (y : Event). y.status) (only_row h)) ∙ p));
  };
  genuine = record { at = λ r h. elim h [ ] };
  tries = record { at = λ e h p. rw (only_row h) (omega arith) };
}
  where
    not_new : new ≡ processed → ⊥
    not_new h = cc

process_once-Steps_example :
    Steps 3
      (view (with_rows (waiting ∷ [])))
      (view (process_once external config (with_rows (waiting ∷ []))).1)
process_once-Steps_example =
    process_once-Steps external config (with_rows (waiting ∷ [])) (one_row waiting)

process_once-IsSound_example :
    IsSound config (process_once external config (with_rows (waiting ∷ []))).1
process_once-IsSound_example =
    process_once-IsSound external config (with_rows (waiting ∷ [])) waiting-IsSound

process_once_final_example :
    IsMember settled
      (process_once external config (with_rows (settled ∷ []))).1.tables.outbox_events
process_once_final_example =
    process_once_final external config (with_rows (settled ∷ [])) settled (one_row settled)
      (was_processed refl) (first refl)

waiting_is_due :
    IsMember waiting (select_due 10 (time_now (with_rows (waiting ∷ []))).1.clock 60 (waiting ∷ []))
unfolding select_due sort_by filter
waiting_is_due = first refl

process_once_delivers_example :
    (a : Event) × IsMember a
      (process_once external config (with_rows (waiting ∷ []))).1.tables.outbox_events
    × (a.id ≡ pos 1)
    × IsProcessed a
    × IsDelivered a (process_once external config (with_rows (waiting ∷ []))).1.topic
process_once_delivers_example =
    process_once_delivers external config 10 (with_rows (waiting ∷ [])) refl (omega arith) refl
      waiting-IsSound waiting waiting_is_due

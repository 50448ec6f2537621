-- ===== src/Kafka/Consumer/Untouched.antt =====
-- What the consumer does before the commit leaves the group's offsets alone.
use go_identity_service.Base.{ℕ, Text, refl, arith}
use go_identity_service.Apperror.{Result, ok, err}
use go_identity_service.External.{External}
use go_identity_service.World.{World, Tables, M}
use go_identity_service.World.Keeps.{
  Keeps, Keeps-begin, Keeps-rollback, Keeps-commit, Keeps-bind, Keeps-attempt, Keeps-on_err,
  Keeps-fail, Keeps-pure, Keeps-call, keeps_rules,
}
use go_identity_service.Kafka.Model.{Event, UserAuditEvent}
use go_identity_service.Kafka.Stores.{
  was_processed, mark_processed, select_processed, insert_processed, insert_audit,
  create_user_audit_event,
}
use go_identity_service.Kafka.Tx.{within_tx, finish}
use go_identity_service.Kafka.Handler.{app_router, route, handle_user_registered}

abbrev pub offsets : World → ℕ → ℕ
offsets w = w.committed

module _ {A : Type 0} where
  finish-offsets : (t : Tables) (r : Result A) → Keeps offsets (finish t r)
  unfolding finish
  finish-offsets t (ok a) =
      Keeps-bind _ _
        (Keeps-on_err _ _ (Keeps-commit (record { at = λ w t s l. refl }) t) (λ e. Keeps-fail _))
        (λ u. Keeps-pure a)
  finish-offsets t (err e) =
      Keeps-bind _ _
        (Keeps-on_err _ _ (Keeps-rollback (record { at = λ w t s l. refl }) t) (λ e. Keeps-fail _))
        (λ u. Keeps-fail e)

  pub within_tx-offsets : (fn : M A) → Keeps offsets fn → Keeps offsets (within_tx fn)
  unfolding within_tx
  within_tx-offsets fn k =
      Keeps-bind _ _
        (Keeps-on_err _ _ (Keeps-begin (record { at = λ w t s l. refl })) (λ e. Keeps-fail _))
        (λ t. Keeps-bind _ _ (Keeps-attempt fn k) (λ r. finish-offsets t r))

pub was_processed-offsets : (id : Text) → Keeps offsets (was_processed id)
unfolding was_processed select_processed
was_processed-offsets id =
    Keeps-on_err _ _ (Keeps-call _ (record { at = λ w l. refl }) (record { at = λ w. refl }))
      (λ e. Keeps-fail _)

insert_processed-offsets : (e : Event) → Keeps offsets (insert_processed e)
unfolding insert_processed
insert_processed-offsets e = record { at = λ w. ground arith }

pub mark_processed-offsets : (e : Event) → Keeps offsets (mark_processed e)
unfolding mark_processed
mark_processed-offsets e =
    Keeps-on_err _ _ (Keeps-call _ (record { at = λ w l. refl }) (insert_processed-offsets e))
      (λ e. Keeps-fail _)

insert_audit-offsets : (a : UserAuditEvent) → Keeps offsets (insert_audit a)
unfolding insert_audit
insert_audit-offsets a = record { at = λ w. ground arith }

create_user_audit_event-offsets : (a : UserAuditEvent) → Keeps offsets (create_user_audit_event a)
unfolding create_user_audit_event
create_user_audit_event-offsets a =
    Keeps-on_err _ _ (Keeps-call _ (record { at = λ w l. refl }) (insert_audit-offsets a))
      (λ e. Keeps-fail _)

handle_user_registered-offsets :
    (x : External) (e : Event) → Keeps offsets (handle_user_registered x e)
unfolding handle_user_registered
handle_user_registered-offsets x e = search (keeps_rules, create_user_audit_event-offsets) depth 30

-- The router of the program leaves the offsets alone.
pub app_router-offsets : (x : External) (e : Event) → Keeps offsets (route (app_router x) e)
unfolding route app_router
app_router-offsets x e = search (keeps_rules, handle_user_registered-offsets) depth 30

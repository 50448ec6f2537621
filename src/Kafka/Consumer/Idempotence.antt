-- ===== src/Kafka/Consumer/Idempotence.antt =====
-- processRecord of internal/kafkaconsumer/consumer.go processes an event once.
use go_identity_service.Base.{◌≡◌, refl, sym, ap, subst, ◌∙◌, Bool, true, inl, inr, arith}
use go_identity_service.Apperror.{Error, Result, ok, err}
use go_identity_service.World.{World, ◌>>=◌, pure, fail}
use go_identity_service.World.Rules.{bind_cases}
use go_identity_service.World.Keeps.{Keeps, Keeps-on_err, Keeps-call, Keeps-fail, keeps_rules}
use go_identity_service.World.Transaction.{TxOutcome}
use go_identity_service.Kafka.Model.{Event, Record}
use go_identity_service.Kafka.Tx.{within_tx}
use go_identity_service.Kafka.Tx.Outcome.{within_tx-TxOutcome}
use go_identity_service.Kafka.Handler.{EventHandler}
use go_identity_service.Kafka.Consumer.{
  event_from_record, process_tx, process_record, commit_offset, commit_records,
}
use go_identity_service.Kafka.Consumer.Marking.{
  is_processed, is_processed-with_processed, Handled, returned-Handled, failed-Handled,
}

module _ (r : Record) where
  pub decode_changes_nothing : Keeps (λ w. w) (event_from_record r)
  unfolding event_from_record
  decode_changes_nothing = search keeps_rules depth 30

  tables-commit_records : Keeps (λ w. w.tables) (commit_records r)
  unfolding commit_records commit_offset
  tables-commit_records =
      Keeps-on_err _ _ (Keeps-call _ (record { at = λ w l. refl }) (record { at = λ w. refl }))
        (λ e. Keeps-fail _)

  -- The event of a record does not depend on the state.
  pub decode_constant : (w v : World) → (event_from_record r w).0 ≡ (event_from_record r v).0
  unfolding event_from_record ◌>>=◌ pure fail
  decode_constant w v = ground arith

module _ (handle : EventHandler) where
  -- What processRecord leaves: an error and the tables as they were, or the record's event handled.
  pub data Processed (r : Record) (w : World) (out : Result (Unit {0}) × World) : Type 0 where
    refused_record : (e : Error) → out.0 ≡ err e → out.1.tables ≡ w.tables → Processed r w out
    handled_record :
        (event : Event) (duplicate : Bool)
        → (event_from_record r w).0 ≡ ok event
        → Handled handle event w.tables out.1.tables duplicate
        → Processed r w out

  module _ (r : Record) (w : World) (event : Event)
      (decoded : (event_from_record r w).0 ≡ ok event) where
    commit_Processed :
        (a : Bool) (v : World)
        → Handled handle event w.tables v.tables a
        → Processed r w (commit_records r v)
    commit_Processed a v h =
        handled_record event a decoded
          (subst (λ t. Handled handle event w.tables t a) (sym ((tables-commit_records r).at v)) h)

    tx_Processed : Processed r w ((within_tx (process_tx handle event) >>= λ _. commit_records r) w)
    tx_Processed =
        bind_cases (Processed r w) (within_tx (process_tx handle event)) (λ _. commit_records r) w
          (λ b p. commit_Processed b _ (returned-Handled handle event w outcome p))
          (λ e p. elim (failed-Handled handle event w outcome p) [
            | inl t ↦ refused_record e refl t
            | inr (b, handled) ↦ handled_record event b decoded handled
          ])
      where
        outcome : TxOutcome (process_tx handle event) w (within_tx (process_tx handle event) w)
        outcome = within_tx-TxOutcome _ w

  -- processRecord either fails and leaves the tables as they were, or its event is handled: it was in
  -- the idempotency table and nothing was written; or it was not, the handler was called for it with the
  -- tables of the start and returned, and the tables are those which the handler left with the event in
  -- the idempotency table.
  pub process_record-Processed :
      (r : Record) (w : World) → Processed r w (process_record handle r w)
  unfolding process_record
  process_record-Processed r w =
      bind_cases (Processed r w) (event_from_record r) _ w
        (λ event p.
          subst
            (λ v. Processed r w ((within_tx (process_tx handle event) >>= λ _. commit_records r) v))
            (sym ((decode_changes_nothing r).at w)) (tx_Processed r w event p))
        (λ e p.
          refused_record e refl (ap (λ (v : World). v.tables) ((decode_changes_nothing r).at w)))

  -- A record whose event is in the idempotency table writes nothing, whatever the handler does.
  pub process_record_duplicate :
      (r : Record) (w : World) (event : Event)
      → (event_from_record r w).0 ≡ ok event
      → is_processed event.event_id w.tables ≡ true
      → (process_record handle r w).1.tables ≡ w.tables
  process_record_duplicate r w event decoded old = go (process_record-Processed r w)
    where
      go :
          Processed r w (process_record handle r w)
          → (process_record handle r w).1.tables ≡ w.tables
      go (refused_record e p t) = t
      go (handled_record event' b p (inl (_, _, t))) = t
      go (handled_record event' b p (inr (_, delivered))) =
          let new = delivered.new in ground (arith, p, decoded, old, new)

  -- A record that was processed without an error writes nothing when it is delivered again, at any
  -- time and whatever the database answers, as long as nobody else wrote to the tables in between.
  pub process_record_once :
      (r : Record) (w later : World)
      → (process_record handle r w).0 ≡ ok tt
      → later.tables ≡ (process_record handle r w).1.tables
      → (process_record handle r later).1.tables ≡ later.tables
  process_record_once r w later h same = go (process_record-Processed r w)
    where
      now_processed :
          (event : Event) (b : Bool)
          → Handled handle event w.tables (process_record handle r w).1.tables b
          → is_processed event.event_id (process_record handle r w).1.tables ≡ true
      now_processed event b (inl (_, old, t)) = rw t old
      now_processed event b (inr (_, delivered)) =
          rw (delivered.noted) (is_processed-with_processed event delivered.after.tables)

      go :
          Processed r w (process_record handle r w)
          → (process_record handle r later).1.tables ≡ later.tables
      go (refused_record e p t) = cc
      go (handled_record event b p handled) =
          process_record_duplicate r later event (decode_constant r later w ∙ p)
            (rw same (now_processed event b handled))

-- ===== src/Kafka/Tx/Outcome.antt =====
-- WithinTx of internal/kafkaconsumer/tx.go is all or nothing.
use go_identity_service.Base.{◌≡◌, refl, inl, inr, List, arith}
use go_identity_service.Apperror.{Error, wrapped, external, Result, ok, err}
use go_identity_service.World.{
  World, Tables, M, Answer, ◌>>=◌, pure, fail, on_err, map_err, attempt, rollback,
}
use go_identity_service.World.Rules.{bind_cases, on_err_cases}
use go_identity_service.World.Answers.{Leaves}
use go_identity_service.World.Transaction.{
  TxOutcome, committed, in_doubt, rolled_back, opened, begin-Begins, tables-rollback,
  commit-Commits,
}
use go_identity_service.Kafka.Tx.{finish, within_tx}

-- The rollback, whose own error is reported with that of the body.
abbrev failing_rollback : Tables → Error → M (Unit {0})
failing_rollback snapshot e =
    map_err (λ rollback_err. wrapped "rollback kafka consumer tx" e) (rollback snapshot)

tables-failing_rollback :
    (snapshot : Tables) (e : Error) (v : World)
    → (failing_rollback snapshot e v).1.tables ≡ snapshot
unfolding fail
tables-failing_rollback snapshot e v =
    on_err_cases (λ r. r.1.tables ≡ snapshot) (rollback snapshot)
      (λ _. fail (wrapped "rollback kafka consumer tx" e)) v (λ _ _. tables-rollback snapshot v)
      (λ _ _. tables-rollback snapshot v)

module _ {A : Type 0} (fn : M A) (w : World) where
  finish-TxOutcome :
      (rest : List Answer) (starts : Leaves w.answers rest) (r : Result A) (v : World)
      → ◌≡◌ {A = Result A × World} (fn (opened w rest)) (r, v)
      → TxOutcome fn w (finish w.tables r v)
  unfolding finish ◌>>=◌ attempt fail pure on_err
  finish-TxOutcome rest starts (err e) v p =
      bind_cases (TxOutcome fn w) (failing_rollback w.tables e) (λ _. fail e) v
        (λ _ _. rolled_back e (tables-failing_rollback w.tables e v) refl)
        (λ e' _. rolled_back e' (tables-failing_rollback w.tables e v) refl)
  finish-TxOutcome rest starts (ok a) v p = elim (commit-Commits w.tables v) [
    | inl (r, t) ↦ committed rest v a p (ground arith) (ground arith)
    | inr (r, inl t) ↦
        rolled_back (wrapped "commit kafka consumer tx" external) (ground arith) (ground arith)
    | inr (r, inr (t, reply)) ↦
        in_doubt rest v a (wrapped "commit kafka consumer tx" external) starts p (ground arith)
          (ground arith) (ground arith)
  ]

  pub within_tx-TxOutcome : TxOutcome fn w (within_tx fn w)
  unfolding within_tx ◌>>=◌ attempt fail on_err
  within_tx-TxOutcome = elim (begin-Begins w) [
    | inl (e, r, t) ↦
        rolled_back (wrapped "begin kafka consumer tx" e) (ground arith) (ground arith)
    | inr (rest, starts, r) ↦
        rw r (finish-TxOutcome rest starts (fn (opened w rest)).0 (fn (opened w rest)).1 refl)
  ]

-- ===== src/Auth/Tx/Outcome.antt =====
-- WithinTx of internal/auth/tx.go is all or nothing.
use go_identity_service.Base.{◌≡◌, refl, inl, inr, List, arith}
use go_identity_service.Apperror.{wrapped, external, Result, ok, err}
use go_identity_service.World.{World, M, Answer, ◌>>=◌, pure, fail, on_err, attempt}
use go_identity_service.World.Answers.{Leaves}
use go_identity_service.World.Transaction.{
  TxOutcome, committed, in_doubt, rolled_back, opened, begin-Begins, tables-rollback,
  commit-Commits,
}
use go_identity_service.Auth.Tx.{finish, within_tx}

module _ {A : Type 0} (fn : M A) (w : World) where
  finish-TxOutcome :
      (rest : List Answer) (starts : Leaves w.answers rest) (r : Result A) (v : World)
      → ◌≡◌ {A = Result A × World} (fn (opened w rest)) (r, v)
      → TxOutcome fn w (finish w.tables r v)
  unfolding finish ◌>>=◌ attempt fail pure on_err
  finish-TxOutcome rest starts (err e) v p = rolled_back e (tables-rollback w.tables v) refl
  finish-TxOutcome rest starts (ok a) v p = elim (commit-Commits w.tables v) [
    | inl (r, t) ↦ committed rest v a p (ground arith) (ground arith)
    | inr (r, inl t) ↦
        rolled_back (wrapped "commit auth transaction" external) (ground arith) (ground arith)
    | inr (r, inr (t, reply)) ↦
        in_doubt rest v a (wrapped "commit auth transaction" external) starts p (ground arith)
          (ground arith) (ground arith)
  ]

  pub within_tx-TxOutcome : TxOutcome fn w (within_tx fn w)
  unfolding within_tx ◌>>=◌ attempt fail on_err
  within_tx-TxOutcome = elim (begin-Begins w) [
    | inl (e, r, t) ↦ rolled_back (wrapped "begin auth transaction" e) (ground arith) (ground arith)
    | inr (rest, starts, r) ↦
        rw r (finish-TxOutcome rest starts (fn (opened w rest)).0 (fn (opened w rest)).1 refl)
  ]

-- ===== src/User/Tx.antt =====
-- PostgresTxRepositoryFactory.WithinTx of internal/user/postgres_tx.go. The deferred Rollback does
-- nothing after a commit.
pub mod Outcome
use go_identity_service.Apperror.{Error, wrapped, Result, ok, err}
use go_identity_service.World.{
  World, Tables, M, ◌>>=◌, ◌>>◌, pure, fail, map_err, attempt, begin, rollback, commit,
}

unfoldable pub finish : {A : Type 0} → Tables → Result A → M A
finish snapshot (err e) = do attempt (rollback snapshot); fail e
finish snapshot (ok a) = do map_err (wrapped "commit transaction") (commit snapshot); pure a

unfoldable pub within_tx : {A : Type 0} → M A → M A
unfolding finish
within_tx fn = do
  snapshot ← map_err (wrapped "begin transaction") begin
  result ← attempt fn
  finish snapshot result

-- ===== src/Tests/Sessions.antt =====
-- The auth service on the sample installation.
use go_identity_service.Base.{codes, ◌≡◌, refl, find?, text_eq, any}
use go_identity_service.Apperror.{Error, Result, ok, err}
use go_identity_service.World.{
  World, ◌>>=◌, pure, fail, on_err, attempt, of_option, call, time_now, next_entropy, begin, commit,
  rollback,
}
use go_identity_service.World.Transaction.{AllOrNothing}
use go_identity_service.Auth.Model.{AuthResponse, is_active}
use go_identity_service.Auth.Token
use go_identity_service.Auth.RefreshTokens
use go_identity_service.Auth.Tx.{within_tx}
use go_identity_service.User.Repository
use go_identity_service.Auth.Service.{register, refresh, issue_token_pair}
use go_identity_service.Auth.Service.Registration.{register_atomic, SignedUp}
use go_identity_service.Auth.Service.Rotation.{refresh_atomic, refresh_once, Rotated}
use go_identity_service.Tests.Sample.{external, world, sessions, signup}

register_atomic_example :
    AllOrNothing (SignedUp external sessions signup) world (register external sessions signup world)
register_atomic_example = register_atomic external sessions signup world

refresh_atomic_example :
    AllOrNothing
      (Rotated external sessions (codes "token") 10)
      world
      (refresh external sessions (codes "token") world)
refresh_atomic_example = refresh_atomic external sessions (codes "token") world

rotated : Result AuthResponse × World
rotated = refresh external sessions (codes "token") world

refreshed : (r : AuthResponse) × (rotated.0 ≡ ok r)
unfolding rotated refresh ◌>>=◌ pure fail on_err attempt of_option call time_now next_entropy begin
    commit rollback is_active Token.generate Token.refresh_hash Token.generate_refresh
    RefreshTokens.find_refresh_token_by_hash RefreshTokens.create_refresh_token
    RefreshTokens.revoke_refresh_token within_tx Repository.find_by_id codes find? text_eq
    issue_token_pair any
refreshed = (_, refl)

refresh_once_example :
    (e : Error) × ((refresh external sessions (codes "token") rotated.1).0 ≡ err e)
    × ((refresh external sessions (codes "token") rotated.1).1.tables ≡ rotated.1.tables)
unfolding rotated
refresh_once_example =
    refresh_once external sessions (codes "token") world rotated.1 refreshed.1 refl

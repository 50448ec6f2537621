-- ===== src/Tests/Logins.antt =====
-- Login and logout on the sample installation.
use go_identity_service.Base.{
  codes, ◌≡◌, refl, find?, text_eq, any, some, false, trim_space, to_lower,
}
use go_identity_service.Apperror.{Error, Result, ok, err, new_invalid_credentials_error}
use go_identity_service.World.{
  World, ◌>>=◌, pure, fail, on_err, of_option, call, time_now, next_entropy,
}
use go_identity_service.World.Rules.{pair_path}
use go_identity_service.User.Repository
use go_identity_service.User.Repository.{has_email}
use go_identity_service.User.Validation.{normal_email}
use go_identity_service.Auth.Model.{AuthResponse}
use go_identity_service.Auth.Password
use go_identity_service.Auth.Token
use go_identity_service.Auth.RefreshTokens
use go_identity_service.Auth.RefreshTokens.{has_hash}
use go_identity_service.Auth.Service.{LoginRequest, login, logout, refresh, issue_token_pair}
use go_identity_service.Auth.Service.Login.{LoggedIn, login-LoggedIn, mismatched, login_wrong}
use go_identity_service.Auth.Service.Logout.{logout_ends}
use go_identity_service.Tests.Sample.{external, world, sessions, ada, token}

abbrev right : LoginRequest
right = record { email = codes " ADA@x"; password = codes "secret" }

abbrev wrong : LoginRequest
wrong = record { email = codes "ada@x"; password = codes "guess" }

entered : Result AuthResponse × World
entered = login external sessions right world

enters : (r : AuthResponse) × (entered.0 ≡ ok r)
unfolding entered login ◌>>=◌ pure fail on_err of_option call time_now next_entropy Token.generate
    Token.refresh_hash Token.generate_refresh RefreshTokens.create_refresh_token
    Repository.find_by_email Password.compare_hash normal_email codes find? text_eq issue_token_pair
    any trim_space to_lower
enters = (_, refl)

login-LoggedIn_example : LoggedIn external sessions right world.tables entered.1.tables enters.0
unfolding entered
login-LoggedIn_example = login-LoggedIn external sessions right world (pair_path entered enters.1)

ada_found : find? (has_email (normal_email external wrong.email)) world.tables.users ≡ some ada
unfolding find? has_email normal_email codes text_eq trim_space to_lower
ada_found = refl

password_differs : external.bcrypt_compare ada.password_hash wrong.password ≡ false
unfolding codes text_eq
password_differs = refl

login_wrong_example :
    login external sessions wrong world ≡ (err new_invalid_credentials_error, world)
login_wrong_example =
    login_wrong external sessions wrong world refl (mismatched ada ada_found password_differs)

left_by : Result (Unit {0}) × World
left_by = logout external sessions (codes "token") world

leaves : left_by.0 ≡ ok tt
unfolding left_by logout ◌>>=◌ pure fail on_err call RefreshTokens.find_refresh_token_by_hash
    RefreshTokens.revoke_refresh_token Token.refresh_hash codes find? text_eq any
leaves = refl

token_found :
    find? (has_hash (Token.refresh_hash external (codes "token"))) world.tables.refresh_tokens
    ≡ some token
unfolding find? has_hash Token.refresh_hash codes text_eq
token_found = refl

logout_ends_example :
    (e : Error) × ((refresh external sessions (codes "token") left_by.1).0 ≡ err e)
    × ((refresh external sessions (codes "token") left_by.1).1.tables ≡ left_by.1.tables)
unfolding left_by
logout_ends_example =
    logout_ends external sessions (codes "token") world left_by.1 token token_found refl leaves refl

-- ===== src/Tests/HttpLogin.antt =====
-- A login over HTTP on the sample installation, with a limiter that allows it.
use go_identity_service.Base.{
  pos, codes, ◌≡◌, refl, find?, text_eq, any, some, true, false, trim_space, to_lower, [],
}
use go_identity_service.Apperror.{Result, ok}
use go_identity_service.World.{
  World, ◌>>=◌, pure, fail, on_err, of_option, attempt, call, time_now, next_entropy,
}
use go_identity_service.World.Rules.{pair_path}
use go_identity_service.User.Repository
use go_identity_service.User.Validation.{normal_email}
use go_identity_service.Auth.Model.{AuthResponse}
use go_identity_service.Auth.Password
use go_identity_service.Auth.Token
use go_identity_service.Auth.RefreshTokens
use go_identity_service.Auth.Service.{LoginRequest, login, issue_token_pair}
use go_identity_service.Auth.Service.Login.{LoggedIn}
use go_identity_service.Http.Response.{
  Response, Reading, readable, end_of_input, is_failure, json, auth_body, decode_json,
}
use go_identity_service.Http.Validation.{struct}
use go_identity_service.Http.Sessions.{Handler, RateLimiter, handle_login, client_ip}
use go_identity_service.Http.Sessions.Login.{Admitted, handle_login-LoggedIn}
use go_identity_service.Tests.Sample.{external, world, sessions}

abbrev permissive : RateLimiter
permissive key limit window = pure true

abbrev handler : Handler
handler = record {
  service = sessions;
  check_register = λ req. [];
  check_login = λ req. [];
  check_token = λ req. [];
  limiter = some permissive;
  rate_limit_config = record {
    login_limit = pos 5;
    login_window = 60;
    register_limit = pos 3;
    register_window = 60;
    refresh_limit = pos 20;
    refresh_window = 60;
  };
}

abbrev body : Reading LoginRequest
body = readable (record { email = codes "ada@x"; password = codes "secret" }) (some end_of_input)

answer : Result Response × World
answer = handle_login external handler (codes "10.0.0.1") body world

answers : (r : Response) × (answer.0 ≡ ok r) × (is_failure r.body ≡ false)
unfolding answer handle_login decode_json struct client_ip login ◌>>=◌ pure fail on_err attempt
    of_option call time_now next_entropy Token.generate Token.refresh_hash Token.generate_refresh
    RefreshTokens.create_refresh_token Repository.find_by_email Password.compare_hash normal_email
    codes find? text_eq issue_token_pair any trim_space to_lower
answers = (_, refl, refl)

handle_login-LoggedIn_example :
    (req : LoginRequest) × (v : World) × (a : AuthResponse) × Admitted external handler
      (codes "10.0.0.1")
      body
      world
      v
      req
    × (answers.0 ≡ json 200 (auth_body a))
    × LoggedIn external sessions req v.tables answer.1.tables a
unfolding answer
handle_login-LoggedIn_example =
    handle_login-LoggedIn external handler (codes "10.0.0.1") body world
      (pair_path answer answers.1) answers.2

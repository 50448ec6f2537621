-- ===== src/Tests/Http.antt =====
-- Requests to the HTTP API of the sample installation.
use go_identity_service.Base.{
  ℤ, codes, any, trim_space, cut_prefix, parse_int64, digits_value, find?, ◌≡◌, refl, ◌⊎◌,
}
use go_identity_service.Apperror.{Result, ok}
use go_identity_service.World.{
  World, ◌>>=◌, pure, on_err, fail, attempt, of_option, time_now, call, take_answer,
}
use go_identity_service.User.Model.{role_admin, to_response}
use go_identity_service.User.Repository.{find_by_id, without_hash}
use go_identity_service.User.Service.{get_user}
use go_identity_service.Auth.Model.{Claims}
use go_identity_service.Auth.Token
use go_identity_service.Auth.Access.Safety.{Presented}
use go_identity_service.Http.Response.{Response, json, user_body}
use go_identity_service.Http.Users.{handle_get_user_by_id}
use go_identity_service.Http.Routes as Routes
use go_identity_service.Http.Routes.{serve_user_request, path_int64_param}
use go_identity_service.Http.Routes.Guards.{Decision, serve_user_request-Decision}
use go_identity_service.Http.Routes.Profile.{Shown, get_user_own}
use go_identity_service.Tests.Sample.{accepting, world, sessions, user_handler, ada}

shown : Result Response × World
shown =
    serve_user_request accepting sessions.tokens user_handler (codes "Bearer t")
      (Routes.get_user (codes "1")) world

serve_user_request-Decision_example :
    Decision accepting sessions.tokens user_handler
      (codes "Bearer t")
      (Routes.get_user (codes "1"))
      world
      shown
unfolding shown
serve_user_request-Decision_example =
    serve_user_request-Decision accepting sessions.tokens user_handler (codes "Bearer t")
      (Routes.get_user (codes "1")) world

abbrev ada_response : Response
ada_response = json 200 (user_body (to_response (without_hash ada)))

shows_ada : shown ≡ (ok ada_response, shown.1)
unfolding shown serve_user_request ◌>>=◌ pure on_err fail attempt of_option time_now call
    take_answer trim_space codes cut_prefix Token.parse any parse_int64 digits_value
    handle_get_user_by_id get_user find_by_id find?
shows_ada = refl

get_user_own_example :
    (claims : Claims) × (id : ℤ) × (v : World) × Presented accepting sessions.tokens
      (codes "Bearer t")
      claims
    × (v.tables ≡ world.tables)
    × Shown accepting sessions.tokens user_handler id v ada_response shown.1
    × ((claims.role ≡ role_admin) ⊎ (id ≡ claims.user_id))
unfolding shown
get_user_own_example =
    get_user_own accepting sessions.tokens user_handler (codes "Bearer t") (codes "1") world
      shows_ada refl

-- ===== src/Http/Routes.antt =====
-- The routes of internal/user/routes.go and internal/auth/handler.go behind their guards, as
-- initUserModule of internal/app/app.go sets them up, and PathInt64Param of internal/auth/middleware.go.
pub mod Guards
pub mod Profile
use go_identity_service.Base.{
  ℤ, pos, int_leb, Text, codes, is_empty, trim_space, parse_int64, Option, none, some, List, [],
  ◌∷◌, if◌then◌else◌,
}
use go_identity_service.Apperror.{Result, ok, err}
use go_identity_service.External.{External}
use go_identity_service.World.{M, ◌>>=◌, pure}
use go_identity_service.User.Model.{role_admin}
use go_identity_service.User.Service.{CreateUserInput, UpdateUserInput, CreateUserWithProfileInput}
use go_identity_service.Auth.Model.{Principal}
use go_identity_service.Auth.Token.{TokenManager}
use go_identity_service.Auth.Access.{
  Outcome, served, refused_with, require_auth, require_role, require_self_or_role,
}
use go_identity_service.Http.Response.{Response, Reading, send_error}
use go_identity_service.Http.Users as Users
use go_identity_service.Http.Users.{
  ListQuery, handle_create_user, handle_get_user_by_id, handle_list_users, handle_update_user,
  handle_delete_user, handle_get_users_by_email, handle_create_user_with_profile,
}
use go_identity_service.Http.Sessions as Sessions
use go_identity_service.Http.Sessions.{handle_me}

abbrev if_positive : Option ℤ → Option ℤ
if_positive none = none
if_positive (some id) = if int_leb id (pos 0) then none else some id

-- PathInt64Param
unfoldable pub path_int64_param : Text → Option ℤ
path_int64_param raw =
    if is_empty (trim_space raw) then none else if_positive (parse_int64 (trim_space raw))

-- A request to one of the routes of RegisterRoutes of the users, with what the route reads of it.
pub data UserRequest : Type 0 where
  get_users : ListQuery → UserRequest
  get_user_by_email : Text → UserRequest
  delete_user : Text → UserRequest
  get_user : Text → UserRequest
  put_user : Text → Reading UpdateUserInput → UserRequest
  post_user : Reading CreateUserInput → UserRequest
  post_user_with_profile : Reading CreateUserWithProfileInput → UserRequest

-- The next handler of a middleware, which writes the response itself.
abbrev pub as_next : M Response → Principal → M (Outcome Response)
as_next m p = do r ← m; pure (served r)

abbrev pub response_of : Outcome Response → Response
response_of (served r) = r
response_of (refused_with status code message) = send_error status code (codes message)

module _ (x : External) (tokens : TokenManager) where
  -- RequireRole(RoleAdmin), and RequireSelfOrRole(PathInt64Param("id"), RoleAdmin)
  unfoldable pub require_admin : Text → M Response → M (Outcome Response)
  unfolding require_role
  require_admin authorization next =
      require_role x tokens (role_admin ∷ []) authorization (as_next next)

  unfoldable pub require_self_or_admin : Text → Text → M Response → M (Outcome Response)
  unfolding require_self_or_role path_int64_param
  require_self_or_admin raw_id authorization next =
      require_self_or_role x tokens (path_int64_param raw_id) (role_admin ∷ []) authorization
        (as_next next)

  module _ (h : Users.Handler) where
    -- The handler of a request, and its guard, with the value of the header Authorization.
    abbrev pub handler : UserRequest → M Response
    handler (get_users query) = handle_list_users x h query
    handler (get_user_by_email email) = handle_get_users_by_email x h email
    handler (delete_user id) = handle_delete_user x h id
    handler (get_user id) = handle_get_user_by_id x h id
    handler (put_user id body) = handle_update_user x h id body
    handler (post_user body) = handle_create_user x h body
    handler (post_user_with_profile body) = handle_create_user_with_profile x h body

    abbrev pub guard : Text → UserRequest → M Response → M (Outcome Response)
    guard authorization (get_user id) = require_self_or_admin id authorization
    guard authorization (put_user id body) = require_self_or_admin id authorization
    guard authorization _ = require_admin authorization

    unfoldable pub serve_user_request : Text → UserRequest → M Response
    unfolding require_admin require_self_or_admin
    serve_user_request authorization req = do
      outcome ← guard authorization req (handler req)
      pure (response_of outcome)

  module _ (h : Sessions.Handler) where
    -- GET /auth/me
    unfoldable pub serve_me : Text → M Response
    unfolding require_auth handle_me
    serve_me authorization = do
      outcome ← require_auth x tokens authorization (λ p. do r ← handle_me x h p; pure (served r))
      pure (response_of outcome)

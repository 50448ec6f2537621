-- ===== src/Tests/Grpc.antt =====
-- Calls of the gRPC API of the sample installation.
use go_identity_service.Base.{
  ◌⊎◌, pos, codes, parse_int64, digits_value, any, [], ◌∷◌, some, none, ◌≡◌, refl, map, filter,
  drop, sort_with, insert_with, trim_space, to_lower,
}
use go_identity_service.Apperror.{
  Error, as_validation, new_user_not_found_error, wrapped, Result, ok,
}
use go_identity_service.World.{World, ◌>>=◌, pure, on_err, fail, attempt, call, take_answer}
use go_identity_service.User.Model.{role_admin}
use go_identity_service.User.Repository.{without_hash, users_order_by}
use go_identity_service.User.Validation.{normal_email}
use go_identity_service.User.Listing.{
  ListUsersFilter, list_users, list, matches, count_users, select_page, listing,
}
use go_identity_service.Auth.Model.{Principal}
use go_identity_service.Http.Response.{handle_error}
use go_identity_service.Http.Routes as Routes
use go_identity_service.Http.Routes.{serve_user_request}
use go_identity_service.Grpc.Status.{to_grpc_error, replied, Reply}
use go_identity_service.Grpc.Status.Mapping.{Corresponds, to_grpc_error-handle_error}
use go_identity_service.Grpc.Authz.{require_role}
use go_identity_service.Grpc.Interceptor.{unary}
use go_identity_service.Grpc.Users.{
  get_user, list_users_reply, list_response, ListUsersResponse, user_to_proto,
}
use go_identity_service.Grpc.Users.Agreement.{
  shown_http, shown_grpc, RoleRefused, get_user_agreement,
}
use go_identity_service.Grpc.Users.Listing.{Listed, list_users_reply-Listed}
use go_identity_service.Tests.Sample.{external, accepting, world, sessions, user_handler}

abbrev missing : Error
missing = wrapped "get user" new_user_not_found_error

missing_is_public : as_validation missing ≡ none
unfolding as_validation
missing_is_public = refl

to_grpc_error-handle_error_example :
    Corresponds (handle_error missing).status (to_grpc_error missing).code
to_grpc_error-handle_error_example = to_grpc_error-handle_error missing missing_is_public

one : parse_int64 (codes "1") ≡ some (pos 1)
unfolding parse_int64 digits_value codes
one = refl

get_user_agreement_example :
    (shown_http (
        serve_user_request accepting sessions.tokens user_handler
          (codes "Bearer t")
          (Routes.get_user (codes "1"))
          world)
      ≡ shown_grpc (
          unary accepting sessions.tokens
            (codes "Bearer t" ∷ [])
            (λ context. get_user accepting user_handler.service context (pos 1))
            world))
    ⊎ RoleRefused accepting sessions.tokens user_handler
        (codes "1")
        (pos 1)
        one
        refl
        (codes "Bearer t")
        world
get_user_agreement_example =
    get_user_agreement accepting sessions.tokens user_handler (codes "1") (pos 1) one refl
      (codes "Bearer t") world

abbrev administrator : Principal
administrator = record { user_id = pos 9; email = []; role = role_admin }

abbrev request : ListUsersFilter
request = record { limit = pos 0; offset = pos 0; email = []; sort = codes "id_desc" }

listed : Result (Reply ListUsersResponse) × World
listed = list_users_reply external (some administrator) request world

all_users : ListUsersResponse
unfolding user_to_proto
all_users = list_response (record { users = map without_hash world.tables.users; total = 1 })

lists : listed ≡ (ok (replied all_users), record world { scans = 1 })
unfolding listed all_users list_users_reply list_users list count_users select_page listing matches
    call take_answer ◌>>=◌ pure on_err fail attempt normal_email trim_space to_lower sort_with
    insert_with filter drop users_order_by any require_role
lists = refl

list_users_reply-Listed_example :
    (p : Principal) × (some administrator ≡ some p)
    × (p.role ≡ role_admin)
    × Listed external (λ a b h. refl) request world all_users
unfolding listed
list_users_reply-Listed_example =
    list_users_reply-Listed external (λ a b h. refl) (some administrator) request world lists

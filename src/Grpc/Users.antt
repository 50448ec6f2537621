-- ===== src/Grpc/Users.antt =====
-- internal/grpcapi/user_service.go.
pub mod Agreement
pub mod Listing
use go_identity_service.Base.{
  ℕ, ℤ, pos, int_eq, int_leb, int_ltb, Text, String, ◌||◌, Option, none, some, List, [], ◌∷◌, map,
  if◌then◌else◌, Bool,
}
use go_identity_service.Apperror.{Error, Result, ok, err}
use go_identity_service.External.{External}
use go_identity_service.World.{M, ◌>>=◌, pure, attempt}
use go_identity_service.User.Model.{User, Role, role_admin}
use go_identity_service.User.Service as Users
use go_identity_service.User.Listing.{ListUsersFilter, ListUsersResult, list_users}
use go_identity_service.Auth.Model.{Principal}
use go_identity_service.Grpc.Status.{
  Status, Reply, replied, failed_with, status_error, invalid_argument, to_grpc_error,
}
use go_identity_service.Grpc.Authz.{require_role, require_self_or_role}

-- The message userapiv1.User; a timestamp is the time itself.
pub record ProtoUser : Type 0 where
  pub id : ℤ
  pub name : Text
  pub email : Text
  pub age : ℤ
  pub role : Role
  pub created_at : ℕ
  pub updated_at : ℕ

pub record ListUsersResponse : Type 0 where
  pub users : List ProtoUser
  pub total : ℕ

unfoldable pub user_to_proto : User → ProtoUser
user_to_proto usr = record {
  id = usr.id;
  name = usr.name;
  email = usr.email;
  age = usr.age;
  role = usr.role;
  created_at = usr.created_at;
  updated_at = usr.updated_at;
}

-- `if err := ...; err != nil { return nil, err }`
abbrev pub unless_denied : {A : Type 0} → Option Status → M (Reply A) → M (Reply A)
unless_denied none next = next
unless_denied (some e) next = pure (failed_with e)

abbrev pub reply_with : {A B : Type 0} → (A → B) → Result A → M (Reply B)
reply_with f (ok a) = pure (replied (f a))
reply_with f (err e) = pure (failed_with (to_grpc_error e))

abbrev pub invalid : {A : Type 0} → String → M (Reply A)
invalid message = pure (failed_with (status_error invalid_argument message))

abbrev pub limit_or_default : ℤ → ℤ
limit_or_default limit = if int_eq limit (pos 0) then pos 20 else limit

abbrev pub list_response : ListUsersResult → ListUsersResponse
list_response list = record { users = map user_to_proto list.users; total = list.total }

module _ (x : External) (s : Users.Service) where
  -- UserService.GetUser
  unfoldable pub get_user : Option Principal → ℤ → M (Reply ProtoUser)
  unfolding require_self_or_role to_grpc_error user_to_proto
  get_user context id =
      if int_leb id (pos 0)
      then invalid "invalid user id"
      else unless_denied (require_self_or_role context id (role_admin ∷ []))
          (do usr ← attempt (Users.get_user x s id); reply_with user_to_proto usr)

module _ (x : External) where
  -- UserService.ListUsers behind the check of the caller, for the fields of the request
  abbrev pub list_allowed : ListUsersFilter → M (Reply ListUsersResponse)
  list_allowed req =
      let limit = limit_or_default req.limit in
      if int_ltb limit (pos 0) || int_ltb (pos 100) limit
      then invalid "limit must be between 1 and 100"
      else if int_ltb req.offset (pos 0)
      then invalid "offset must be greater than or equal to 0"
      else do
        list ← attempt (list_users x (record req { limit = limit }))
        reply_with list_response list

  -- UserService.ListUsers
  unfoldable pub list_users_reply : Option Principal → ListUsersFilter → M (Reply ListUsersResponse)
  unfolding require_role to_grpc_error user_to_proto
  list_users_reply context req =
      unless_denied (require_role context (role_admin ∷ [])) (list_allowed req)

-- ===== src/User/Service.antt =====
-- internal/user/service.go. The repository, the transactions and the cache are those of app.go.
pub mod Answers
pub mod Registration
pub mod Profiles
pub mod Updates
pub mod Caching
pub mod Freshness
pub mod Requests
use go_identity_service.Base.{
  ℕ, ℤ, pos, int_leb, Text, text_eq, is_empty, trim_space, String, Bool, true, false, not, Option,
  none, some, List, [], ◌∷◌, format_int, if◌then◌else◌,
}
use go_identity_service.Apperror.{
  Error, wrapped, message, field_validation, user_not_found, email_already_exists, errors_is,
  new_user_not_found_error, new_email_already_exists_error, new_invalid_user_id_error, Result, ok,
  err,
}
use go_identity_service.External.{External, UserRegistered}
use go_identity_service.World.{
  World, M, ◌>>=◌, ◌>>◌, pure, fail, on_err, map_err, attempt, of_option,
}
use go_identity_service.User.Model.{User, Profile}
pub use go_identity_service.User.Inputs.{
  CacheConfig, Service, CreateUserInput, UpdateUserInput, CreateUserWithProfileInput,
  ProfileWithUser,
}
use go_identity_service.User.Repository
use go_identity_service.User.Cache
use go_identity_service.User.Tx.{within_tx}
use go_identity_service.User.Validation.{validate_user_input, normal_email}
use go_identity_service.Auth.Password
use go_identity_service.Outbox.Repository as OutboxStore
use go_identity_service.Outbox.Model.{
  Event, new, event_type_user_registered, aggregate_user, content_type_protobuf,
  proto_message_user_registered, event_version_v1,
}

-- What a composite literal that gives four fields leaves at its zero values.
abbrev pub new_user : Text → Text → ℤ → Text → User
new_user name email age password_hash = record {
  id = pos 0;
  name = name;
  email = email;
  age = age;
  role = "";
  password_hash = password_hash;
  created_at = 0;
  updated_at = 0;
}

-- `if err := ...; err != nil { return err }`
abbrev pub require_nil : Option Error → M (Unit {0})
require_nil none = pure tt
require_nil (some e) = fail e

abbrev pub registered_event : User → List ℕ → Event
registered_event u payload = record {
  id = pos 0;
  event_type = event_type_user_registered;
  aggregate_type = aggregate_user;
  aggregate_id = format_int u.id;
  payload = payload;
  content_type = content_type_protobuf;
  proto_message = proto_message_user_registered;
  event_version = event_version_v1;
  status = new;
  attempts = 0;
  last_error = none;
  locked_at = none;
  processed_at = none;
  created_at = 0;
}

abbrev pub registration : User → UserRegistered
registration u = record { user_id = u.id; email = u.email; role = u.role }

-- What the methods make of the repository's error.
abbrev public_or : String → Error → Error
public_or what e = if errors_is e user_not_found then new_user_not_found_error else wrapped what e

module _ (x : External) where
  -- eventcodec.MarshalUserRegistered
  unfoldable pub marshal_user_registered : UserRegistered → M (List ℕ)
  marshal_user_registered m =
      map_err (wrapped "marshal user registered protobuf") (of_option (x.proto_marshal m))

  unfoldable pub create_outbox_event : User → M (Unit {0})
  create_outbox_event created = do
    payload ← marshal_user_registered (registration created)
    map_err (wrapped "create user registered outbox event")
        (OutboxStore.create (registered_event created payload))
    pure tt

  unfoldable pub create_user_tx : Text → Text → ℤ → Text → M User
  create_user_tx name email age password = do
    exists ← map_err (wrapped "create user") (Repository.exists_by_email email)
    if exists then fail new_email_already_exists_error else do
      created ←
          map_err (wrapped "create user") (Repository.create (new_user name email age password))
      map_err (wrapped "create outbox event") (create_outbox_event created)
      pure created

  unfoldable pub create_user : Service → CreateUserInput → M User
  unfolding create_user_tx
  create_user s request = if not s.has_tx_factory then fail (message "tx factory is nil") else do
    let name = trim_space request.name
    let email = normal_email x request.email
    require_nil (validate_user_input x name email request.age)
    password ← Password.hash x request.password
    within_tx (create_user_tx name email request.age password)

  -- `err == nil && ok`
  abbrev pub hit : Result (Option User) → Option User
  hit (ok found) = found
  hit (err e) = none

  unfoldable pub cache_get : Option CacheConfig → ℤ → M (Option User)
  cache_get none id = pure none
  cache_get (some c) id = do cached ← attempt (Cache.get_user x c.prefix id); pure (hit cached)

  unfoldable pub cache_set : Option CacheConfig → User → M (Unit {0})
  cache_set none u = pure tt
  cache_set (some c) u = do attempt (Cache.set_user x c.prefix u c.ttl); pure tt

  -- A failure is logged.
  unfoldable pub cache_delete : Option CacheConfig → ℤ → M (Unit {0})
  cache_delete none id = pure tt
  cache_delete (some c) id = do attempt (Cache.delete_user x c.prefix id); pure tt

  unfoldable pub fetch_and_cache : Service → ℤ → M User
  fetch_and_cache s id = do
    user ← map_err (public_or "find user by id") (Repository.find_by_id id)
    cache_set s.cache user
    pure user

  unfoldable pub get_or_fetch : Service → ℤ → Option User → M User
  get_or_fetch s id (some cached) = pure cached
  get_or_fetch s id none = fetch_and_cache s id

  unfoldable pub get_user : Service → ℤ → M User
  unfolding cache_get cache_set fetch_and_cache get_or_fetch errors_is
  get_user s id =
      if int_leb id (pos 0)
      then fail new_invalid_user_id_error
      else do cached ← cache_get s.cache id; get_or_fetch s id cached

  -- The address must be free, unless it is the user's own.
  unfoldable pub check_email_free : Text → Text → M (Unit {0})
  check_email_free old email = if text_eq old email then pure tt else do
    exists ← map_err (wrapped "checked email exists") (Repository.exists_by_email email)
    if exists then fail new_email_already_exists_error else pure tt

  unfoldable pub update_user : Service → ℤ → UpdateUserInput → M User
  unfolding cache_delete check_email_free errors_is
  update_user s id user = if int_leb id (pos 0) then fail new_invalid_user_id_error else do
    let name = trim_space user.name
    let email = normal_email x user.email
    require_nil (validate_user_input x name email user.age)
    existing ← map_err (public_or "update user by id") (Repository.find_by_id id)
    check_email_free existing.email email
    updated ←
        map_err (public_or "update user by id")
          (Repository.update (record (new_user name email user.age []) { id = id }))
    cache_delete s.cache id
    pure updated

  unfoldable pub delete_user : Service → ℤ → M (Unit {0})
  unfolding cache_delete errors_is
  delete_user s id = if int_leb id (pos 0) then fail new_invalid_user_id_error else do
    map_err (public_or "delete user by id") (Repository.delete id)
    cache_delete s.cache id

  unfoldable pub get_user_by_email : Text → M User
  unfolding errors_is
  get_user_by_email raw = do
    let email = normal_email x raw
    if is_empty email
        then fail (field_validation (("email", "is required") ∷ []))
        else map_err (public_or "get user by email") (Repository.find_by_email email)

  unfoldable pub create_user_with_profile_tx : Text → Text → ℤ → Text → Text → M ProfileWithUser
  create_user_with_profile_tx name email age bio password_hash = do
    exists ← map_err (wrapped "check email exists") (Repository.exists_by_email email)
    if exists then fail new_email_already_exists_error else do
      created ←
          map_err
            (λ e.
              if errors_is e email_already_exists
              then new_email_already_exists_error
              else wrapped "create user" e)
            (Repository.create (new_user name email age password_hash))
      profile ← map_err (wrapped "create user profile") (
          Repository.create_profile (record {
            id = pos 0;
            user_id = created.id;
            bio = bio;
            created_at = 0;
            updated_at = 0;
          }))
      map_err (wrapped "create outbox event") (create_outbox_event created)
      pure (record { user = created; profile = profile })

  unfoldable pub create_user_with_profile : Service → CreateUserWithProfileInput → M ProfileWithUser
  unfolding create_user_with_profile_tx errors_is
  create_user_with_profile s input =
      if not s.has_tx_factory then fail (message "tx factory is nil") else do
        require_nil (validate_user_input x input.name input.email input.age)
        let name = trim_space input.name
        let email = normal_email x input.email
        let bio = trim_space input.bio
        password_hash ← Password.hash x input.password
        within_tx (create_user_with_profile_tx name email input.age bio password_hash)

-- ===== src/Auth/Service.antt =====
-- internal/auth/service.go.
pub mod Tokens
pub mod Answers
pub mod Registration
pub mod Rotation
pub mod Login
pub mod Logout
use go_identity_service.Base.{
  ℕ, ◌+◌, ℤ, pos, Text, codes, trim_space, String, Bool, true, false, not, Option, none, some,
  if◌then◌else◌,
}
use go_identity_service.Apperror.{
  Error, wrapped, user_not_found, email_already_exists, refresh_token_not_found, errors_is,
  new_user_not_found_error, new_email_already_exists_error, new_invalid_credentials_error,
  new_unauthorized_error, Result, ok, err,
}
use go_identity_service.External.{External}
use go_identity_service.World.{World, M, ◌>>=◌, ◌>>◌, pure, fail, on_err, map_err, time_now}
use go_identity_service.User.Model.{User, UserResponse, role_user, to_response}
use go_identity_service.User.Repository
use go_identity_service.User.Validation.{normal_email}
use go_identity_service.User.Service.{
  new_user, registered_event, registration, marshal_user_registered,
}
use go_identity_service.Outbox.Repository as OutboxStore
use go_identity_service.Auth.Model.{RefreshToken, AuthResponse, is_active, is_revoked}
use go_identity_service.Auth.Password
use go_identity_service.Auth.Token
use go_identity_service.Auth.Token.{TokenManager}
use go_identity_service.Auth.RefreshTokens
use go_identity_service.Auth.Tx.{within_tx}

pub record Service : Type 0 where
  pub tokens : TokenManager
  pub refresh_token_ttl : ℕ

pub record RegisterRequest : Type 0 where
  pub name : Text
  pub email : Text
  pub age : ℤ
  pub password : Text

pub record LoginRequest : Type 0 where
  pub email : Text
  pub password : Text

abbrev pub dummy_password_hash : Text
dummy_password_hash = codes "$2a$12$e80yq9gIe67Cqg4a0d9I6.L971nJ9.xP7pB/64QZz.7iG8JgP1G2m"

abbrev pub auth_response : User → Text × Text → AuthResponse
auth_response u (access_token, refresh_token) = record {
  access_token = access_token;
  token_type = codes "Bearer";
  refresh_token = refresh_token;
  user = to_response u;
}

abbrev pub new_token : ℤ → Text → ℕ → RefreshToken
new_token user_id hash expires_at = record {
  id = pos 0;
  user_id = user_id;
  token_hash = hash;
  expires_at = expires_at;
  revoked_at = none;
  created_at = 0;
}

module _ (x : External) (s : Service) where
  -- issueTokenPairWithStore, and issueTokenPair: the two stores are the same table.
  unfoldable pub issue_token_pair : User → M (Text × Text)
  issue_token_pair usr = do
    access_token ← Token.generate x s.tokens usr.id usr.email usr.role
    pair ← Token.generate_refresh x
    now ← time_now
    RefreshTokens.create_refresh_token (new_token usr.id pair.1 (now + s.refresh_token_ttl))
    pure (access_token, pair.0)

  unfoldable pub register_tx : RegisterRequest → Text → Text → Text → M AuthResponse
  register_tx req name email password_hash = do
    exist ← map_err (wrapped "check email exists") (Repository.exists_by_email email)
    if exist then fail new_email_already_exists_error else do
      created ←
          map_err
            (λ e. if errors_is e email_already_exists then new_email_already_exists_error else e)
            (Repository.create
              (record (new_user name email req.age password_hash) { role = role_user }))
      pair ← issue_token_pair created
      payload ← marshal_user_registered x (registration created)
      map_err (wrapped "create user registered outbox event")
          (OutboxStore.create (registered_event created payload))
      pure (auth_response created pair)

  unfoldable pub register : RegisterRequest → M AuthResponse
  unfolding register_tx errors_is
  register req = do
    let name = trim_space req.name
    let email = normal_email x req.email
    password_hash ← Password.hash x req.password
    within_tx (register_tx req name email password_hash)

  -- The comparison with the dummy hash has no result that is used.
  unfoldable pub login : LoginRequest → M AuthResponse
  unfolding errors_is
  login req = do
    found ←
        map_err
          (λ e.
            if errors_is e user_not_found
            then new_invalid_credentials_error
            else wrapped "find user by email" e)
          (Repository.find_by_email (normal_email x req.email))
    if not (Password.compare_hash x found.password_hash req.password)
        then fail new_invalid_credentials_error
        else do pair ← issue_token_pair found; pure (auth_response found pair)

  unfoldable pub me : ℤ → M UserResponse
  unfolding errors_is
  me user_id = do
    found ←
        map_err (λ e. if errors_is e user_not_found then new_user_not_found_error else e)
          (Repository.find_by_id user_id)
    pure (to_response found)

  unfoldable pub refresh_active : RefreshToken → M AuthResponse
  refresh_active stored = do
    usr ←
        map_err
          (λ e.
            if errors_is e user_not_found
            then new_unauthorized_error
            else wrapped "find user by id" e)
          (Repository.find_by_id stored.user_id)
    pair ← issue_token_pair usr
    map_err (wrapped "revoke old refresh token") (RefreshTokens.revoke_refresh_token stored.id)
    pure (auth_response usr pair)

  unfoldable pub refresh_tx : Text → M AuthResponse
  unfolding refresh_active
  refresh_tx hash = do
    stored ←
        map_err
          (λ e.
            if errors_is e refresh_token_not_found
            then new_unauthorized_error
            else wrapped "find refresh token by hash" e)
          (RefreshTokens.find_refresh_token_by_hash hash)
    now ← time_now
    if not (is_active stored now) then fail new_unauthorized_error else refresh_active stored

  unfoldable pub refresh : Text → M AuthResponse
  unfolding refresh_tx errors_is
  refresh refresh_token = within_tx (refresh_tx (Token.refresh_hash x refresh_token))

  unfoldable pub logout_found : Option RefreshToken → M (Unit {0})
  logout_found none = pure tt
  logout_found (some stored) =
      if is_revoked stored
      then pure tt
      else map_err (wrapped "revoke refresh token") (RefreshTokens.revoke_refresh_token stored.id)

  unfoldable pub logout : Text → M (Unit {0})
  unfolding logout_found errors_is
  logout refresh_token = do
    stored ←
        on_err
          (do
            t ← RefreshTokens.find_refresh_token_by_hash (Token.refresh_hash x refresh_token)
            pure (some t))
          (λ e.
            if errors_is e refresh_token_not_found
            then pure none
            else fail (wrapped "find refresh token" e))
    logout_found stored

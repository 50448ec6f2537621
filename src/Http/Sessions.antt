-- ===== src/Http/Sessions.antt =====
-- internal/auth/handler.go and RateLimitConfig of internal/auth/config.go.
pub mod Login
use go_identity_service.Base.{
  ℕ, ℤ, Text, codes, is_empty, Bool, true, false, Option, none, some, ◌++◌, if◌then◌else◌,
}
use go_identity_service.Apperror.{Result, ok, err}
use go_identity_service.External.{External}
use go_identity_service.World.{M, ◌>>=◌, pure, attempt}
use go_identity_service.User.Validation.{normal_email}
use go_identity_service.Auth.Model.{Principal}
use go_identity_service.Auth.Service.{
  Service, RegisterRequest, LoginRequest, register, login, refresh, logout, me,
}
use go_identity_service.Http.Response.{
  Response, Reading, json, no_body, auth_body, me_body, respond, handle_error, send_error,
  decode_json,
}
use go_identity_service.Http.Validation.{Check, struct, unless_error}

-- The interface RateLimiter.
abbrev pub RateLimiter : Type 0
RateLimiter = Text → ℤ → ℕ → M Bool

pub record RateLimitConfig : Type 0 where
  pub login_limit : ℤ
  pub login_window : ℕ
  pub register_limit : ℤ
  pub register_window : ℕ
  pub refresh_limit : ℤ
  pub refresh_window : ℕ

pub record Handler : Type 0 where
  pub service : Service
  pub check_register : Check RegisterRequest
  pub check_login : Check LoginRequest
  -- RefreshRequest and LogoutRequest hold the refresh token.
  pub check_token : Check Text
  pub limiter : Option RateLimiter
  pub rate_limit_config : RateLimitConfig

-- rejectRateLimited
unfoldable pub rate_limited : Response
unfolding send_error
rate_limited = send_error 429 "rate_limited" (codes "Too many requests")

abbrev pub if_allowed : Result Bool → M Response → M Response
if_allowed (err e) next = pure (handle_error e)
if_allowed (ok true) next = next
if_allowed (ok false) next = pure rate_limited

-- `if h.limiter != nil { ... }`, and what follows it
abbrev pub limited : Option RateLimiter → Text → ℤ → ℕ → M Response → M Response
limited none key limit window next = next
limited (some allow) key limit window next = do
  allowed ← attempt (allow key limit window)
  if_allowed allowed next

module _ (x : External) where
  abbrev host_or : Text → Option Text → Text
  host_or address (some host) = host
  host_or address none = if is_empty address then codes "unknown" else address

  -- clientIP, for the RemoteAddr of the request
  unfoldable pub client_ip : Text → Text
  client_ip remote_addr = host_or remote_addr (x.split_host remote_addr)

  module _ (h : Handler) where
    unfoldable pub handle_register : Text → Reading RegisterRequest → M Response
    unfolding decode_json struct client_ip rate_limited
    handle_register remote_addr body = decode_json x body (λ req.
        unless_error (struct h.check_register req) (
          limited h.limiter (codes "auth:register:ip:" ++ client_ip remote_addr)
            h.rate_limit_config.register_limit h.rate_limit_config.register_window
            (do
              result ← attempt (register x h.service req)
              respond (λ r. json 201 (auth_body r)) result)))

    abbrev pub login_key : Text → LoginRequest → Text
    login_key remote_addr req =
        codes "auth:login:email_ip:"
        ++ normal_email x req.email
        ++ codes ":"
        ++ client_ip remote_addr

    unfoldable pub handle_login : Text → Reading LoginRequest → M Response
    unfolding decode_json struct client_ip rate_limited
    handle_login remote_addr body = decode_json x body (λ req.
        unless_error (struct h.check_login req) (
          limited h.limiter (login_key remote_addr req) h.rate_limit_config.login_limit
            h.rate_limit_config.login_window
            (do
              result ← attempt (login x h.service req)
              respond (λ r. json 200 (auth_body r)) result)))

    unfoldable pub handle_refresh : Text → Reading Text → M Response
    unfolding decode_json struct client_ip rate_limited
    handle_refresh remote_addr body = decode_json x body (λ req.
        unless_error (struct h.check_token req) (
          limited h.limiter (codes "auth:refresh:ip:" ++ client_ip remote_addr)
            h.rate_limit_config.refresh_limit h.rate_limit_config.refresh_window
            (do
              result ← attempt (refresh x h.service req)
              respond (λ r. json 200 (auth_body r)) result)))

    unfoldable pub handle_logout : Reading Text → M Response
    unfolding decode_json struct
    handle_logout body = decode_json x body (λ req.
        unless_error (struct h.check_token req)
          (do result ← attempt (logout x h.service req); respond (λ _. json 204 no_body) result))

    -- Me, for the principal that RequireAuth put into the context.
    unfoldable pub handle_me : Principal → M Response
    handle_me principal = do
      result ← attempt (me x h.service principal.user_id)
      respond (λ u. json 200 (me_body u)) result

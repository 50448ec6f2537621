-- ===== src/Apperror.antt =====
-- internal/apperror/error.go, the sentinels and constructors of internal/user/errors.go and
-- internal/auth/errors.go, and Go's error chains: `fmt.Errorf("...: %w", err)` is `wrapped`, and
-- `errors.Is`, `errors.As` walk the chain. An error of a third party is `external`.

use go_identity_service.Base.{ℕ, Bool, true, false, Option, none, some, List, String}

pub data Sentinel : Type 0 where
  user_not_found email_already_exists invalid_user_id invalid_user_input : Sentinel
  invalid_credentials unauthorized refresh_token_not_found : Sentinel
  no_rows redis_nil : Sentinel

abbrev pub sentinel_eq : Sentinel → Sentinel → Bool
sentinel_eq user_not_found user_not_found = true
sentinel_eq email_already_exists email_already_exists = true
sentinel_eq invalid_user_id invalid_user_id = true
sentinel_eq invalid_user_input invalid_user_input = true
sentinel_eq invalid_credentials invalid_credentials = true
sentinel_eq unauthorized unauthorized = true
sentinel_eq refresh_token_not_found refresh_token_not_found = true
sentinel_eq no_rows no_rows = true
sentinel_eq redis_nil redis_nil = true
sentinel_eq _ _ = false

-- map[string]string of a field validation error, keys in the order of insertion.
abbrev pub Fields : Type 0
Fields = List (String × String)

pub data Error : Type 0 where
  sentinel : Sentinel → Error
  -- *pgconn.PgError with its Code
  pg_error : String → Error
  external : Error
  message : String → Error
  wrapped : String → Error → Error
  public_error : ℕ → String → String → Error → Error
  field_validation : Fields → Error

-- errors.Is(err, target), for a target that is one of the sentinels.
unfoldable pub errors_is : Error → Sentinel → Bool
errors_is (sentinel s) t = sentinel_eq s t
errors_is (wrapped m e) t = errors_is e t
errors_is (public_error s c m e) t = errors_is e t
errors_is (pg_error c) t = false
errors_is external t = false
errors_is (message m) t = false
errors_is (field_validation fs) t = false

pub record PublicError : Type 0 where
  pub status : ℕ
  pub code : String
  pub text : String

-- errors.As(err, &publicErr)
unfoldable pub as_public : Error → Option PublicError
as_public (public_error s c m e) = some (record { status = s; code = c; text = m })
as_public (wrapped m e) = as_public e
as_public (sentinel s) = none
as_public (pg_error c) = none
as_public external = none
as_public (message m) = none
as_public (field_validation fs) = none

-- errors.As(err, &validationErr)
unfoldable pub as_validation : Error → Option Fields
as_validation (field_validation fs) = some fs
as_validation (wrapped m e) = as_validation e
as_validation (public_error s c m e) = as_validation e
as_validation (sentinel s) = none
as_validation (pg_error c) = none
as_validation external = none
as_validation (message m) = none

-- errors.As(err, &pgErr), with the code of the error found.
unfoldable pub as_pg : Error → Option String
as_pg (pg_error c) = some c
as_pg (wrapped m e) = as_pg e
as_pg (public_error s c m e) = as_pg e
as_pg (sentinel s) = none
as_pg external = none
as_pg (message m) = none
as_pg (field_validation fs) = none

abbrev pub new_user_not_found_error : Error
new_user_not_found_error =
    public_error 404 "user_not_found" "User not found" (sentinel user_not_found)

abbrev pub new_email_already_exists_error : Error
new_email_already_exists_error =
    public_error 409 "email_already_exists" "Email already exists" (sentinel email_already_exists)

abbrev pub new_invalid_user_id_error : Error
new_invalid_user_id_error =
    public_error 400 "invalid_user_id" "Invalid user id" (sentinel invalid_user_id)

abbrev pub new_invalid_user_input_error : Error
new_invalid_user_input_error =
    public_error 400 "invalid_user_input" "Invalid user input" (sentinel invalid_user_input)

abbrev pub new_refresh_token_not_found_error : Error
new_refresh_token_not_found_error =
    public_error 404 "refresh_token_not_found" "Refresh token not found"
      (sentinel refresh_token_not_found)

abbrev pub new_invalid_credentials_error : Error
new_invalid_credentials_error =
    public_error 401 "invalid_credentials" "invalid email or password"
      (sentinel invalid_credentials)

abbrev pub new_unauthorized_error : Error
new_unauthorized_error = public_error 401 "unauthorized" "unauthorized" (sentinel unauthorized)

pub data Result {ℓ} (A : Type ℓ) : Type ℓ where
  ok : A → Result A
  err : Error → Result A

-- ===== src/Http/Response.antt =====
-- internal/response: what is answered to a request, and the reading of its body. The JSON decoder is
-- a third party: `Reading` is what its two calls of Decode gave.
pub mod Failures
use go_identity_service.Base.{
  ℕ, Text, codes, cut_prefix, String, ◌≡◌, refl, Bool, true, false, Option, none, some, List, ◌++◌,
  ℤ,
}
use go_identity_service.Apperror.{
  Error, Fields, PublicError, as_public, as_validation, Result, ok, err,
}
use go_identity_service.External.{External}
use go_identity_service.World.{M, pure}
use go_identity_service.User.Model.{UserResponse, UserWithProfileResponse}
use go_identity_service.Auth.Model.{AuthResponse}

-- Pagination and Page of page.go, for users.
pub record Pagination : Type 0 where
  pub limit : ℤ
  pub offset : ℤ
  pub total : ℕ

pub record Page : Type 0 where
  pub items : List UserResponse
  pub pagination : Pagination

-- The data that JSON encodes. An ErrorBody has its code and message, or the fields that are invalid.
pub data Body : Type 0 where
  no_body : Body
  user_body : UserResponse → Body
  page_body : Page → Body
  me_body : UserResponse → Body
  user_with_profile_body : UserWithProfileResponse → Body
  auth_body : AuthResponse → Body
  error_body : String → Text → Body
  validation_body : Fields → Body

pub record Response : Type 0 where
  pub status : ℕ
  pub body : Body

abbrev pub json : ℕ → Body → Response
json code value = record { status = code; body = value }

-- SendError
unfoldable pub send_error : ℕ → String → Text → Response
send_error code error_code message = json code (error_body error_code message)

-- SendValidationError
unfoldable pub send_validation_error : Fields → Response
send_validation_error fields = json 400 (validation_body fields)

abbrev pub send_public : Option PublicError → Response
send_public (some p) = send_error p.status p.code (codes p.text)
send_public none = send_error 500 "internal_error" (codes "Internal server error")

abbrev pub send_first : Option Fields → Error → Response
send_first (some fields) e = send_validation_error fields
send_first none e = send_public (as_public e)

-- HandleError
unfoldable pub handle_error : Error → Response
unfolding send_error send_validation_error as_public as_validation
handle_error e = send_first (as_validation e) e

send_first-user_body :
    (o : Option Fields) (q : Option PublicError) (e : Error) {b : UserResponse}
    → as_public e ≡ q
    → (send_first o e).body ≡ user_body b
    → ⊥
unfolding send_error send_validation_error
send_first-user_body (some fields) q e p h = cc
send_first-user_body none (some u) e p h = let k = rw p at h in cc
send_first-user_body none none e p h = let k = rw p at h in cc

-- An error is not answered with a user.
pub handle_error-user_body :
    (e : Error) {b : UserResponse} → (handle_error e).body ≡ user_body b → ⊥
unfolding handle_error
handle_error-user_body e h = send_first-user_body (as_validation e) (as_public e) e refl h

-- Whether a body says that the request failed.
abbrev pub is_failure : Body → Bool
is_failure (error_body code message) = true
is_failure (validation_body fields) = true
is_failure _ = false

-- What a handler makes of the service's result.
abbrev pub respond : {A : Type 0} → (A → Response) → Result A → M Response
respond f (ok a) = pure (f a)
respond f (err e) = pure (handle_error e)

-- The errors of the decoder that writeDecodeError tells apart: `other_error` with its text.
pub data DecodeError : Type 0 where
  syntax_error : DecodeError
  unexpected_eof : DecodeError
  type_error : Text → DecodeError
  end_of_input : DecodeError
  max_bytes_error : DecodeError
  other_error : Text → DecodeError

-- The results of Decode(&dst) and then of Decode(&struct{}{}).
pub data Reading (A : Type 0) : Type 0 where
  unreadable : DecodeError → Reading A
  readable : A → Option DecodeError → Reading A

module _ (x : External) where
  abbrev pub unknown_field : Option Text → Response
  unknown_field (some field) = send_error 400 "unknown_json_field" (codes "Unknown field " ++ field)
  unknown_field none = send_error 400 "invalid_json" (codes "Invalid JSON body")

  -- writeDecodeError
  unfoldable pub write_decode_error : DecodeError → Response
  unfolding send_error
  write_decode_error syntax_error = send_error 400 "invalid_json" (codes "Malformed JSON body")
  write_decode_error unexpected_eof = send_error 400 "invalid_json" (codes "Malformed JSON body")
  write_decode_error (type_error field) =
      send_error 400 "invalid_json_type" (codes "Invalid value for field " ++ x.quote field)
  write_decode_error end_of_input =
      send_error 400 "empty_body" (codes "Request body must not be empty")
  write_decode_error max_bytes_error =
      send_error 413 "body_too_large" (codes "Request body is too large")
  write_decode_error (other_error text) =
      unknown_field (cut_prefix (codes "json: unknown field ") text)

  -- DecodeJSON: the value, or the response to write.
  unfoldable pub decode_json : {A : Type 0} → Reading A → (A → M Response) → M Response
  unfolding write_decode_error send_error
  decode_json (unreadable e) next = pure (write_decode_error e)
  decode_json (readable a (some end_of_input)) next = next a
  decode_json (readable a _) next =
      pure (send_error 400 "invalid_json" (codes "Request body must contain only one JSON object"))

-- ===== src/Grpc/Status.antt =====
-- The codes of the gRPC library that internal/grpcapi uses, the replies of its methods, and toGRPCError
-- of user_service.go.
pub mod Mapping
use go_identity_service.Base.{ℕ, ◌==◌, String, Option, none, some, if◌then◌else◌}
use go_identity_service.Apperror.{Error, PublicError, as_public}

pub data Code : Type 0 where
  invalid_argument unauthenticated permission_denied not_found already_exists internal : Code

-- status.Error(code, message)
pub record Status : Type 0 where
  pub code : Code
  pub message : String

abbrev pub status_error : Code → String → Status
status_error code message = record { code = code; message = message }

-- A method's response, or its error.
pub data Reply (A : Type 0) : Type 0 where
  replied : A → Reply A
  failed_with : Status → Reply A

abbrev pub public_code : ℕ → Code
public_code status =
    if status == 400
    then invalid_argument
    else if status == 401
    then unauthenticated
    else if status == 403
    then permission_denied
    else if status == 404
    then not_found
    else if status == 409
    then already_exists
    else internal

abbrev pub of_public : Option PublicError → Status
of_public (some p) = status_error (public_code p.status) p.text
of_public none = status_error internal "internal error"

-- toGRPCError
unfoldable pub to_grpc_error : Error → Status
unfolding as_public
to_grpc_error e = of_public (as_public e)

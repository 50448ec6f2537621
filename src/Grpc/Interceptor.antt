-- ===== src/Grpc/Interceptor.antt =====
-- internal/grpcapi/auth_interceptor.go.
use go_identity_service.Base.{
  Text, codes, is_empty, trim_space, cut_prefix, String, not, Option, none, some, List, [], ◌∷◌,
  if◌then◌else◌,
}
use go_identity_service.Apperror.{Result, ok, err}
use go_identity_service.External.{External}
use go_identity_service.World.{M, ◌>>=◌, pure, attempt}
use go_identity_service.User.Model.{role_is_valid}
use go_identity_service.Auth.Model.{Claims, Principal}
use go_identity_service.Auth.Token
use go_identity_service.Auth.Token.{TokenManager}
use go_identity_service.Auth.Access.{principal_of}
use go_identity_service.Grpc.Status.{Reply, failed_with, status_error, unauthenticated}

-- authorizationHeader, for the values of the metadata key "authorization".
unfoldable pub authorization_header : List Text → Text
authorization_header [] = []
authorization_header (value ∷ values) = trim_space value

module _ {A : Type 0} where
  abbrev pub rejected : String → M (Reply A)
  rejected message = pure (failed_with (status_error unauthenticated message))

  abbrev pub with_claims : (Option Principal → M (Reply A)) → Result Claims → M (Reply A)
  with_claims handler (err e) = rejected "invalid token"
  with_claims handler (ok claims) =
      if not (role_is_valid claims.role)
      then rejected "invalid token role"
      else handler (some (principal_of claims))

  module _ (x : External) (tokens : TokenManager) where
    abbrev pub with_token : (Option Principal → M (Reply A)) → Option Text → M (Reply A)
    with_token handler none = rejected "invalid authorization header"
    with_token handler (some rest) =
        let token = trim_space rest in
        if is_empty token
        then rejected "empty bearer token"
        else do claims ← attempt (Token.parse x tokens token); with_claims handler claims

    -- AuthInterceptor.Unary
    unfoldable pub unary : List Text → (Option Principal → M (Reply A)) → M (Reply A)
    unfolding authorization_header
    unary values handler =
        let header = authorization_header values in
        if is_empty header
        then handler none
        else with_token handler (cut_prefix (codes "Bearer ") header)

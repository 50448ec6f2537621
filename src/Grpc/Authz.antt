-- ===== src/Grpc/Authz.antt =====
-- internal/grpcapi/authz.go. The principal of the context is an Option, as PrincipalFromContext of
-- internal/auth/context.go gives it.
use go_identity_service.Base.{ℤ, int_eq, str_eq, any, Option, none, some, List, if◌then◌else◌}
use go_identity_service.User.Model.{Role}
use go_identity_service.Auth.Model.{Principal}
use go_identity_service.Grpc.Status.{Status, status_error, unauthenticated, permission_denied}

-- requirePrincipal, and the check behind it: the error, if there is one.
unfoldable pub require_principal : Option Principal → (Principal → Option Status) → Option Status
require_principal none check = some (status_error unauthenticated "unauthenticated")
require_principal (some p) check = check p

abbrev pub denied : Option Status
denied = some (status_error permission_denied "permission denied")

-- requireRole
unfoldable pub require_role : Option Principal → List Role → Option Status
unfolding require_principal
require_role context roles =
    require_principal context (λ p. if any (str_eq p.role) roles then none else denied)

-- requireSelfOrRole
unfoldable pub require_self_or_role : Option Principal → ℤ → List Role → Option Status
unfolding require_principal
require_self_or_role context resource_user_id roles = require_principal context (λ p.
    if any (str_eq p.role) roles
    then none
    else if int_eq p.user_id resource_user_id
    then none
    else denied)

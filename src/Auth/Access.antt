-- ===== src/Auth/Access.antt =====
-- internal/auth/middleware.go: who may pass to a handler of the HTTP API.
pub mod Safety
pub mod Cases
use go_identity_service.Base.{
  ℤ, int_eq, Text, codes, is_empty, trim_space, cut_prefix, String, str_eq, not, any, Option, none,
  some, List, if◌then◌else◌, ℕ,
}
use go_identity_service.Apperror.{Result, ok, err}
use go_identity_service.External.{External}
use go_identity_service.World.{M, ◌>>=◌, pure, attempt}
use go_identity_service.User.Model.{Role}
use go_identity_service.Auth.Model.{Claims, Principal}
use go_identity_service.Auth.Token
use go_identity_service.Auth.Token.{TokenManager}

-- What a middleware makes of a request: the answer of the next handler, or an error with its status,
-- its code and its message.
pub data Outcome (A : Type 0) : Type 0 where
  served : A → Outcome A
  refused_with : ℕ → String → String → Outcome A

abbrev pub principal_of : Claims → Principal
principal_of c = record { user_id = c.user_id; email = c.email; role = c.role }

-- The token of a trimmed header, if it is a bearer token that is not empty.
unfoldable pub bearer : Text → Option Text
bearer header = if is_empty header then none else elim (cut_prefix (codes "Bearer ") header) [
  | none ↦ none
  | some rest ↦ if is_empty (trim_space rest) then none else some (trim_space rest)
]

module _ {A : Type 0} where
  abbrev pub unauthorized : Outcome A
  unauthorized = refused_with 401 "unauthorized" "Unauthorized"

  abbrev pub forbidden : Outcome A
  forbidden = refused_with 403 "forbidden" "Forbidden"

  abbrev pub invalid_path_param : Outcome A
  invalid_path_param = refused_with 400 "invalid_path_param" "Invalid path parameter"

  abbrev pub authenticated : (Principal → M (Outcome A)) → Result Claims → M (Outcome A)
  authenticated next (err e) = pure unauthorized
  authenticated next (ok c) = next (principal_of c)

  abbrev pub with_bearer : (Text → M (Outcome A)) → Option Text → M (Outcome A)
  with_bearer f none = pure unauthorized
  with_bearer f (some token) = f token

  -- The check of the resource's owner, whose id is `none` when the path parameter is no id.
  abbrev pub self_only : Option ℤ → Principal → M (Outcome A) → M (Outcome A)
  self_only none p next = pure invalid_path_param
  self_only (some id) p next = if not (int_eq p.user_id id) then pure forbidden else next

  module _ (x : External) (tokens : TokenManager) where
    -- MiddleWare.RequireAuth, for the value of the header Authorization.
    unfoldable pub require_auth : Text → (Principal → M (Outcome A)) → M (Outcome A)
    unfolding bearer
    require_auth raw next =
        with_bearer
          (λ token. do claims ← attempt (Token.parse x tokens token); authenticated next claims)
          (bearer (trim_space raw))

    -- MiddleWare.RequireRole
    unfoldable pub require_role : List Role → Text → (Principal → M (Outcome A)) → M (Outcome A)
    unfolding require_auth
    require_role roles raw next =
        require_auth raw (λ p. if not (any (str_eq p.role) roles) then pure forbidden else next p)

    -- MiddleWare.RequireSelfOrRole
    unfoldable pub require_self_or_role :
        Option ℤ → List Role → Text → (Principal → M (Outcome A)) → M (Outcome A)
    unfolding require_auth
    require_self_or_role resource roles raw next =
        require_auth raw
          (λ p. if any (str_eq p.role) roles then next p else self_only resource p (next p))

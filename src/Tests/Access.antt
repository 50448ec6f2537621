-- ===== src/Tests/Access.antt =====
-- The HTTP middleware on the sample installation, with a JWT library that accepts one token.
use go_identity_service.Base.{
  ℕ, pos, codes, any, trim_space, cut_prefix, str_eq, some, [], ◌∷◌, ◌≡◌, refl, true, ◌⊎◌,
}
use go_identity_service.Apperror.{Result, ok}
use go_identity_service.World.{World, M, ◌>>=◌, pure, on_err, fail, attempt, of_option, time_now}
use go_identity_service.User.Model.{role_user, role_admin}
use go_identity_service.Auth.Model.{Claims, Principal}
use go_identity_service.Auth.Token
use go_identity_service.Auth.Access.{Outcome, served, require_role, require_self_or_role}
use go_identity_service.Auth.Access.Safety.{Presented, require_self_or_role_safe, require_role_safe}
use go_identity_service.Tests.Sample.{accepting, world, sessions}

abbrev answer : Principal → M (Outcome ℕ)
answer p = pure (served 7)

admitted : Result (Outcome ℕ) × World
admitted =
    require_self_or_role accepting sessions.tokens (some (pos 1)) (role_admin ∷ [])
      (codes "Bearer t") answer world

passes : admitted ≡ (ok (served 7), admitted.1)
unfolding admitted require_self_or_role ◌>>=◌ pure attempt on_err fail of_option time_now
    Token.parse codes trim_space cut_prefix any
passes = refl

require_self_or_role_safe_example :
    (claims : Claims) × Presented accepting sessions.tokens (codes "Bearer t") claims
    × ((any (str_eq claims.role) (role_admin ∷ []) ≡ true) ⊎ (some (pos 1) ≡ some claims.user_id))
unfolding admitted
require_self_or_role_safe_example =
    require_self_or_role_safe accepting sessions.tokens (some (pos 1)) (role_admin ∷ [])
      (codes "Bearer t") answer world passes

user_admitted : Result (Outcome ℕ) × World
user_admitted =
    require_role accepting sessions.tokens (role_user ∷ []) (codes "Bearer t") answer world

user_passes : user_admitted ≡ (ok (served 7), user_admitted.1)
unfolding user_admitted require_role ◌>>=◌ pure attempt on_err fail of_option time_now Token.parse
    codes trim_space cut_prefix any
user_passes = refl

require_role_safe_example :
    (claims : Claims) × Presented accepting sessions.tokens (codes "Bearer t") claims
    × (any (str_eq claims.role) (role_user ∷ []) ≡ true)
unfolding user_admitted
require_role_safe_example =
    require_role_safe accepting sessions.tokens (role_user ∷ []) (codes "Bearer t") answer world
      user_passes

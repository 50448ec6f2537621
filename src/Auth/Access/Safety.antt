-- ===== src/Auth/Access/Safety.antt =====
-- Who passes the middleware of the HTTP API.
use go_identity_service.Base.{
  ℕ, ℤ, int_eq, int_eq_iff, Text, trim_space, str_eq, ◌≡◌, refl, sym, ap, ◌⊎◌, inl, inr, true,
  false, not, Bool-cases, any, Option, none, some, List, if◌then◌else◌, arith,
}
use go_identity_service.Apperror.{Result, ok, err}
use go_identity_service.External.{External}
use go_identity_service.World.{World, M, ◌>>=◌, pure, attempt}
use go_identity_service.World.Rules.{bind-ok, map_err-ok, of_option-ok, pure-ok, pair_path}
use go_identity_service.User.Model.{Role}
use go_identity_service.Auth.Model.{Claims, Principal}
use go_identity_service.Auth.Token
use go_identity_service.Auth.Token.{TokenManager}
use go_identity_service.Auth.Access.{
  Outcome, served, principal_of, bearer, authenticated, with_bearer, unauthorized, forbidden,
  self_only, require_auth, require_role, require_self_or_role,
}

not_served :
    {A : Type 0} (o : Outcome A) (w : World) {a : A} {w' : World}
    → ((b : A) → o ≡ served b → ⊥)
    → pure o w ≡ (ok (served a), w')
    → ⊥
not_served o w n h = n _ (pure-ok o w h).0

module _ (x : External) (tokens : TokenManager) where
  -- The header held a bearer token that the JWT library accepted, with these claims.
  pub record Presented (raw : Text) (claims : Claims) : Type 0 where
    pub token : Text
    pub now : ℕ
    pub in_header : bearer (trim_space raw) ≡ some token
    pub accepted : x.parse tokens.secret tokens.issuer now token ≡ some claims

  pub parse-ok :
      (token : Text) (w : World) {claims : Claims} {w' : World}
      → Token.parse x tokens token w ≡ (ok claims, w')
      → (now : ℕ) × (x.parse tokens.secret tokens.issuer now token ≡ some claims)
  unfolding Token.parse
  parse-ok token w h = bind-ok _ _ w h λ now v p q. (now, (of_option-ok _ v (map_err-ok _ _ v q)).0)

  module _ {A : Type 0} where
    require_auth-Presented :
        (raw : Text) (next : Principal → M (Outcome A)) (w : World) {a : A} {w' : World}
        → require_auth x tokens raw next w ≡ (ok (served a), w')
        → (claims : Claims) × (v : World) × Presented raw claims
          × (next (principal_of claims) v ≡ (ok (served a), w'))
    unfolding require_auth
    require_auth-Presented raw next w {a} {w'} h = go (bearer (trim_space raw)) refl h
      where
        parsed :
            (token : Text)
            → bearer (trim_space raw) ≡ some token
            → (r : Result Claims) (v : World)
            → ((claims : Claims) → r ≡ ok claims → (Token.parse x tokens token w).0 ≡ ok claims)
            → authenticated next r v ≡ (ok (served a), w')
            → (claims : Claims) × (v : World) × Presented raw claims
              × (next (principal_of claims) v ≡ (ok (served a), w'))
        parsed token p (err e) v back k = absurd (not_served unauthorized v (λ b q. cc) k)
        parsed token p (ok claims) v back k =
            let (now, accepted) =
              parse-ok token w (pair_path (Token.parse x tokens token w) (back claims refl)) in
            (claims, v, record { token = token; now = now; in_header = p; accepted = accepted }, k)

        go :
            (o : Option Text)
            → bearer (trim_space raw) ≡ o
            → with_bearer (λ token. attempt (Token.parse x tokens token) >>= authenticated next) o w
              ≡ (ok (served a), w')
            → (claims : Claims) × (v : World) × Presented raw claims
              × (next (principal_of claims) v ≡ (ok (served a), w'))
        go none p k = absurd (not_served unauthorized w (λ b q. cc) k)
        go (some token) p k =
            bind-ok _ _ w k
              λ r v q k'. parsed token p r v (λ claims e. unfold attempt in ground (arith, q, e)) k'

    -- RequireSelfOrRole lets a request through to the handler's answer only with a bearer token that
    -- the JWT library accepts, whose claims have one of the roles or are those of the resource's owner.
    pub require_self_or_role_safe :
        (resource : Option ℤ) (roles : List Role) (raw : Text) (next : Principal → M (Outcome A))
        (w : World) {a : A} {w' : World}
        → require_self_or_role x tokens resource roles raw next w ≡ (ok (served a), w')
        → (claims : Claims) × Presented raw claims
          × ((any (str_eq claims.role) roles ≡ true) ⊎ (resource ≡ some claims.user_id))
    unfolding require_self_or_role
    require_self_or_role_safe resource roles raw next w {a} {w'} h =
        let (claims, v, shown, k) =
          require_auth-Presented raw
            (λ p. if any (str_eq p.role) roles then next p else self_only resource p (next p)) w
            h in
        (claims, shown, allowed claims v (Bool-cases (any (str_eq claims.role) roles)) k)
      where
        owner :
            (r : Option ℤ) (claims : Claims) (v : World)
            → self_only r (principal_of claims) (next (principal_of claims)) v ≡ (ok (served a), w')
            → r ≡ some claims.user_id
        owner none claims v k = absurd (not_served _ v (λ b q. cc) k)
        owner (some id) claims v k = elim (Bool-cases (int_eq claims.user_id id)) [
          | inl same ↦ ap some (sym ((int_eq_iff claims.user_id id).0 same))
          | inr other ↦ absurd (not_served _ v (λ b q. cc) (rw other at k))
        ]

        allowed :
            (claims : Claims) (v : World)
            → (any (str_eq claims.role) roles ≡ true) ⊎ (any (str_eq claims.role) roles ≡ false)
            → (if any (str_eq claims.role) roles
                  then next (principal_of claims)
                  else self_only resource (principal_of claims) (next (principal_of claims)))
                v
              ≡ (ok (served a), w')
            → (any (str_eq claims.role) roles ≡ true) ⊎ (resource ≡ some claims.user_id)
        allowed claims v (inl yes_role) k = inl yes_role
        allowed claims v (inr miss) k = inr (owner resource claims v (rw miss at k))

    -- RequireRole lets a request through to the handler's answer only with a bearer token that the JWT
    -- library accepts, whose claims have one of the roles.
    pub require_role_safe :
        (roles : List Role) (raw : Text) (next : Principal → M (Outcome A)) (w : World) {a : A}
        {w' : World}
        → require_role x tokens roles raw next w ≡ (ok (served a), w')
        → (claims : Claims) × Presented raw claims × (any (str_eq claims.role) roles ≡ true)
    unfolding require_role
    require_role_safe roles raw next w {a} {w'} h =
        let (claims, v, shown, k) =
          require_auth-Presented raw
            (λ p. if not (any (str_eq p.role) roles) then pure forbidden else next p) w h in
        (claims, shown, allowed claims v (Bool-cases (any (str_eq claims.role) roles)) k)
      where
        allowed :
            (claims : Claims) (v : World)
            → (any (str_eq claims.role) roles ≡ true) ⊎ (any (str_eq claims.role) roles ≡ false)
            → (if not (any (str_eq claims.role) roles)
                  then pure forbidden
                  else next (principal_of claims))
                v
              ≡ (ok (served a), w')
            → any (str_eq claims.role) roles ≡ true
        allowed claims v (inl held) k = held
        allowed claims v (inr miss) k = absurd (not_served forbidden v (λ b q. cc) (rw miss at k))

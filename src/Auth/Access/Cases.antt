-- ===== src/Auth/Access/Cases.antt =====
-- What each middleware makes of a request, case by case: it answers, or it hands the request on.
use go_identity_service.Base.{
  ℕ, ℤ, int_eq, int_eq_iff, Text, trim_space, str_eq, ◌≡◌, refl, sym, ap, ◌∙◌, ◌⊎◌, inl, inr, true,
  not, Bool-cases, any, Option, none, some, List, [], ◌∷◌, if◌then◌else◌,
}
use go_identity_service.Apperror.{Result, ok, err}
use go_identity_service.External.{External}
use go_identity_service.World.{World, M, ◌>>=◌, pure, attempt, time_now, read_delays}
use go_identity_service.World.Rules.{pair_path}
use go_identity_service.World.Keeps.{Keeps, Keeps-bind, keeps_rules}
use go_identity_service.User.Model.{Role}
use go_identity_service.Auth.Model.{Claims, Principal}
use go_identity_service.Auth.Token
use go_identity_service.Auth.Token.{TokenManager}
use go_identity_service.Auth.Access.{
  Outcome, principal_of, bearer, authenticated, with_bearer, unauthorized, forbidden,
  invalid_path_param, self_only, require_auth, require_role, require_self_or_role,
}
use go_identity_service.Auth.Access.Safety.{Presented, parse-ok}

tables-time_now : Keeps (λ w. w.tables) time_now
unfolding time_now
tables-time_now = record { at = λ w. go w.delays w }
  where
    go : (l : List ℕ) (w : World) → (read_delays l w).1.tables ≡ w.tables
    go [] w = refl
    go (d ∷ rest) w = refl

module _ (x : External) (tokens : TokenManager) where
  tables-parse : (token : Text) → Keeps (λ w. w.tables) (Token.parse x tokens token)
  unfolding Token.parse
  tables-parse token = Keeps-bind _ _ tables-time_now (λ now. search keeps_rules depth 30)

  module _ {A : Type 0} (Q : Result (Outcome A) × World → Type 0) (raw : Text)
      (next : Principal → M (Outcome A)) (w : World)
      (refused : (v : World) → v.tables ≡ w.tables → Q (pure unauthorized v))
      (passed : (claims : Claims) (v : World)
        → Presented x tokens raw claims
        → v.tables ≡ w.tables
        → Q (next (principal_of claims) v)) where
    -- RequireAuth answers 401, or hands on the principal of the claims that the token carries.
    pub require_auth_cases : Q (require_auth x tokens raw next w)
    unfolding require_auth ◌>>=◌ attempt
    require_auth_cases = go (bearer (trim_space raw)) refl
      where
        parsed :
            (token : Text)
            → bearer (trim_space raw) ≡ some token
            → (r : Result Claims) → (Token.parse x tokens token w).0 ≡ r
            → Q (authenticated next r (Token.parse x tokens token w).1)
        parsed token p (err e) q = refused _ ((tables-parse token).at w)
        parsed token p (ok claims) q =
            let (now, accepted) =
              parse-ok x tokens token w (pair_path (Token.parse x tokens token w) q) in
            passed claims _
              (record { token = token; now = now; in_header = p; accepted = accepted })
              ((tables-parse token).at w)

        go :
            (o : Option Text)
            → bearer (trim_space raw) ≡ o
            → Q (
                with_bearer
                  (λ token. attempt (Token.parse x tokens token) >>= authenticated next)
                  o
                  w)
        go none p = refused w refl
        go (some token) p = parsed token p _ refl

  module _ {A : Type 0} (Q : Result (Outcome A) × World → Type 0) (raw : Text)
      (next : Principal → M (Outcome A)) (w : World)
      (refused : (v : World) → v.tables ≡ w.tables → Q (pure unauthorized v))
      (denied : (v : World) → v.tables ≡ w.tables → Q (pure forbidden v)) where
    -- RequireRole answers 401 or 403, or hands on the principal of a token with one of the roles.
    pub require_role_cases :
        (roles : List Role)
        → ((claims : Claims) (v : World)
            → Presented x tokens raw claims
            → v.tables ≡ w.tables
            → any (str_eq claims.role) roles ≡ true
            → Q (next (principal_of claims) v))
        → Q (require_role x tokens roles raw next w)
    unfolding require_role
    require_role_cases roles passed =
        require_auth_cases Q raw
          (λ p. if not (any (str_eq p.role) roles) then pure forbidden else next p) w refused
          (λ claims v shown same. elim (Bool-cases (any (str_eq claims.role) roles)) [
            | inl held ↦ rw held (passed claims v shown same held)
            | inr miss ↦ rw miss (denied v same)
          ])

    -- RequireSelfOrRole answers 401, 400 or 403, or hands on the principal of a token that has one of
    -- the roles or is the owner's.
    pub require_self_or_role_cases :
        (resource : Option ℤ) (roles : List Role)
        → ((v : World) → v.tables ≡ w.tables → Q (pure invalid_path_param v))
        → ((claims : Claims) (v : World)
            → Presented x tokens raw claims
            → v.tables ≡ w.tables
            → (any (str_eq claims.role) roles ≡ true) ⊎ (resource ≡ some claims.user_id)
            → Q (next (principal_of claims) v))
        → Q (require_self_or_role x tokens resource roles raw next w)
    unfolding require_self_or_role
    require_self_or_role_cases resource roles bad passed =
        require_auth_cases Q raw
          (λ p. if any (str_eq p.role) roles then next p else self_only resource p (next p)) w
          refused
          (λ claims v shown same. elim (Bool-cases (any (str_eq claims.role) roles)) [
            | inl held ↦ rw held (passed claims v shown same (inl held))
            | inr miss ↦ rw miss (owner claims v shown same resource refl)
          ])
      where
        owner :
            (claims : Claims) (v : World)
            → Presented x tokens raw claims
            → v.tables ≡ w.tables
            → (o : Option ℤ) → resource ≡ o
            → Q (self_only o (principal_of claims) (next (principal_of claims)) v)
        owner claims v shown same none p = bad v same
        owner claims v shown same (some id) p = elim (Bool-cases (int_eq claims.user_id id)) [
          | inl own ↦ rw own (
              passed claims v shown same
                (inr (p ∙ ap some (sym ((int_eq_iff claims.user_id id).0 own)))))
          | inr other ↦ rw other (denied v same)
        ]

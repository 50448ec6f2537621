-- ===== src/Auth/Service/Tokens.antt =====
-- issueTokenPairWithStore of internal/auth/service.go: what a pair of tokens is, and what it writes.
use go_identity_service.Base.{
  ℕ, ◌+◌, Text, ◌≡◌, refl, sym, ap, subst, ◌∙◌, false, none, some, any, arith,
}
use go_identity_service.Apperror.{ok}
use go_identity_service.External.{External}
use go_identity_service.World.{World, Tables, next_entropy}
use go_identity_service.World.Rules.{bind-ok, map_err-ok, pure-ok, of_option-ok, time_now-ok}
use go_identity_service.User.Model.{User}
use go_identity_service.Auth.Model.{RefreshToken}
use go_identity_service.Auth.Token
use go_identity_service.Auth.RefreshTokens.{has_hash}
use go_identity_service.Auth.RefreshTokens.Effects.{
  TokenCreated, create_refresh_token-ok, token_row, with_token,
}
use go_identity_service.Auth.Service.{Service, issue_token_pair, new_token}

module _ (x : External) (s : Service) where
  -- An access token of the user, and a refresh token whose hash, and only that, is a new row: it
  -- belongs to the user, is not revoked, and runs out `refresh_token_ttl` after it was issued.
  pub record Issued (usr : User) (pair : Text × Text) (t t' : Tables) : Type 0 where
    pub token : RefreshToken
    pub signed_at : ℕ
    pub issued_at : ℕ
    pub signed :
        x.sign s.tokens.secret (Token.claims_at x s.tokens signed_at usr.id usr.email usr.role)
        ≡ some pair.0
    pub owner_is : token.user_id ≡ usr.id
    pub hash_is : token.token_hash ≡ Token.refresh_hash x pair.1
    pub not_revoked : token.revoked_at ≡ none
    pub expires : token.expires_at ≡ issued_at + s.refresh_token_ttl
    pub fresh : any (has_hash (Token.refresh_hash x pair.1)) t.refresh_tokens ≡ false
    pub tables : t' ≡ with_token t token

  generate-ok :
      (usr : User) (w : World) {a : Text} {w' : World}
      → Token.generate x s.tokens usr.id usr.email usr.role w ≡ (ok a, w')
      → (at : ℕ) × (x.sign s.tokens.secret (Token.claims_at x s.tokens at usr.id usr.email usr.role)
          ≡ some a)
        × (w'.tables ≡ w.tables)
  unfolding Token.generate
  generate-ok usr w h = bind-ok _ _ w h λ now v p q.
      let (same, _, _) = time_now-ok w p in
      let (signed, is_v) = of_option-ok _ v (map_err-ok _ _ v q) in
      (now, signed, ap (λ (y : World). y.tables) is_v ∙ same)

  generate_refresh-ok :
      (w : World) {pair : Text × Text} {w' : World}
      → Token.generate_refresh x w ≡ (ok pair, w')
      → (pair.1 ≡ Token.refresh_hash x pair.0) × (w'.tables ≡ w.tables)
  unfolding Token.generate_refresh
  generate_refresh-ok w h = bind-ok _ _ w h λ raw v p q. bind-ok _ _ v q λ token v' p' q'.
      let (_, is_v) = of_option-ok _ v (map_err-ok _ _ v p') in
      let (is_pair, is_w) = pure-ok _ v' q' in
      (
        ap (λ (y : Text × Text). y.1) (sym is_pair)
            ∙ ap (λ (y : Text × Text). Token.refresh_hash x y.0) is_pair,
        ap (λ (y : World). y.tables) (sym is_w ∙ is_v) ∙ entropy_tables w p,
      )
    where
      entropy_tables :
          (w : World) {n : ℕ} {v : World} → next_entropy w ≡ (ok n, v) → v.tables ≡ w.tables
      entropy_tables w e = unfold next_entropy in ground arith

  pub issue_token_pair-ok :
      (usr : User) (w : World) {pair : Text × Text} {w' : World}
      → issue_token_pair x s usr w ≡ (ok pair, w')
      → Issued usr pair w.tables w'.tables
  unfolding issue_token_pair
  issue_token_pair-ok usr w {pair} {w'} h = bind-ok _ _ w h λ access v p q.
      bind-ok _ _ v q λ refreshed v1 p1 q1. bind-ok _ _ v1 q1 λ now v2 p2 q2.
        bind-ok _ _ v2 q2 λ created v3 p3 q3.
          let (at, signed, same) = generate-ok usr w p in
          let (hash_is, same1) = generate_refresh-ok v p1 in
          let (same2, _, _) = time_now-ok v1 p2 in
          let c = create_refresh_token-ok _ v2 p3 in
          let (is_pair, is_w) = pure-ok _ v3 q3 in
          subst (λ y. Issued usr y w.tables w'.tables) is_pair
            (assemble at access refreshed now v2 v3 signed hash_is (same2 ∙ same1 ∙ same) c
              (ap (λ (y : World). y.tables) (sym is_w)))
    where
      assemble :
          (at : ℕ) (access : Text) (refreshed : Text × Text) (now : ℕ) (v2 v3 : World)
          → x.sign s.tokens.secret (Token.claims_at x s.tokens at usr.id usr.email usr.role)
            ≡ some access
          → refreshed.1 ≡ Token.refresh_hash x refreshed.0
          → v2.tables ≡ w.tables
          → TokenCreated (new_token usr.id refreshed.1 (now + s.refresh_token_ttl)) v2 v3
          → {t' : Tables} → t' ≡ v3.tables
          → Issued usr (access, refreshed.0) w.tables t'
      assemble at access refreshed now v2 v3 signed hash_is same c is_t = record {
        token = token_row (new_token usr.id refreshed.1 (now + s.refresh_token_ttl)) v2;
        signed_at = at;
        issued_at = now;
        signed = signed;
        owner_is = refl;
        hash_is = hash_is;
        not_revoked = refl;
        expires = refl;
        fresh =
            ap (λ (y : Tables). any (has_hash (Token.refresh_hash x refreshed.0)) y.refresh_tokens)
              (sym same)
            ∙ ap (λ (y : Text). any (has_hash y) v2.tables.refresh_tokens) (sym hash_is)
            ∙ c.free;
        tables =
            is_t
            ∙ c.tables
            ∙ ap
                (λ (y : Tables).
                  with_token y
                    (token_row (new_token usr.id refreshed.1 (now + s.refresh_token_ttl)) v2))
                same;
      }

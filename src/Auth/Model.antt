-- ===== src/Auth/Model.antt =====
-- internal/auth/refresh_token.go, context.go and the claims of token.go.
use go_identity_service.Base.{ℕ, ℤ, Text, Bool, true, false, not, ◌&&◌, Option, none, some, ltb}
use go_identity_service.User.Model.{Role, UserResponse}

pub record RefreshToken : Type 0 where
  pub id : ℤ
  pub user_id : ℤ
  pub token_hash : Text
  pub expires_at : ℕ
  pub revoked_at : Option ℕ
  pub created_at : ℕ

-- !t.ExpiresAt.After(now)
unfoldable pub is_expired : RefreshToken → ℕ → Bool
is_expired t now = not (ltb now t.expires_at)

unfoldable pub is_revoked : RefreshToken → Bool
is_revoked t = elim t.revoked_at [ none ↦ false | some r ↦ true ]

unfoldable pub is_active : RefreshToken → ℕ → Bool
unfolding is_revoked is_expired
is_active t now = not (is_revoked t) && not (is_expired t now)

pub record Principal : Type 0 where
  pub user_id : ℤ
  pub email : Text
  pub role : Role

-- Claims of token.go, with the registered claims that Generate sets.
pub record Claims : Type 0 where
  pub user_id : ℤ
  pub email : Text
  pub role : Role
  pub issuer : Text
  pub subject : Text
  pub issued_at : ℕ
  pub expires_at : ℕ

pub record AuthResponse : Type 0 where
  pub access_token : Text
  pub token_type : Text
  pub refresh_token : Text
  pub user : UserResponse

-- ===== src/Auth/Token.antt =====
-- internal/auth/token.go and refresh_token_manager.go.
use go_identity_service.Base.{ℕ, ◌+◌, ℤ, Text, String, format_int}
use go_identity_service.Apperror.{wrapped}
use go_identity_service.External.{External}
use go_identity_service.World.{M, ◌>>=◌, pure, map_err, of_option, time_now, next_entropy}
use go_identity_service.Auth.Model.{Claims}

pub record TokenManager : Type 0 where
  pub secret : Text
  pub ttl : ℕ
  pub issuer : Text

module _ (x : External) where
  abbrev pub claims_at : TokenManager → ℕ → ℤ → Text → String → Claims
  claims_at m now user_id email role = record {
    user_id = user_id;
    email = email;
    role = role;
    issuer = m.issuer;
    subject = format_int user_id;
    issued_at = x.numeric_date now;
    expires_at = x.numeric_date (now + m.ttl);
  }

  -- TokenManager.Generate
  unfoldable pub generate : TokenManager → ℤ → Text → String → M Text
  generate m user_id email role = do
    now ← time_now
    map_err (wrapped "sign jwt") (of_option (x.sign m.secret (claims_at m now user_id email role)))

  -- TokenManager.Parse
  unfoldable pub parse : TokenManager → Text → M Claims
  parse m token = do
    now ← time_now
    map_err (wrapped "parse jwt") (of_option (x.parse m.secret m.issuer now token))

  -- RefreshTokenManager.Hash
  unfoldable pub refresh_hash : Text → Text
  refresh_hash token = x.sha256_hex token

  -- RefreshTokenManager.Generate
  unfoldable pub generate_refresh : M (Text × Text)
  unfolding refresh_hash
  generate_refresh = do
    raw ← next_entropy
    token ← map_err (wrapped "error generating refresh token") (of_option (x.random_token raw))
    pure (token, refresh_hash token)

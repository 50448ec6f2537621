-- ===== src/Auth/Password.antt =====
-- internal/auth/password.go.
use go_identity_service.Base.{ℕ, Text, Bool}
use go_identity_service.Apperror.{wrapped}
use go_identity_service.External.{External}
use go_identity_service.World.{M, ◌>>=◌, map_err, of_option, next_entropy}

abbrev bcrypt_cost : ℕ
bcrypt_cost = 12

module _ (x : External) where
  unfoldable pub hash : Text → M Text
  hash password = do
    salt ← next_entropy
    map_err (wrapped "generate pasword hash")
        (of_option (x.bcrypt_generate bcrypt_cost salt password))

  unfoldable pub compare_hash : Text → Text → Bool
  compare_hash hashed password = x.bcrypt_compare hashed password

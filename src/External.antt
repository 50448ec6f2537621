-- ===== src/External.antt =====
-- The code that the service calls and that is not in the repository, as operations that the model
-- takes as an argument: bcrypt, the random generator, SHA-256, JWT, protobuf, JSON, mail and network
-- addresses, PostgreSQL's ILIKE and collation, and the tables of Unicode. Randomness is a function of a
-- counter that each use moves on.
use go_identity_service.Base.{ℕ, ℤ, Text, Bool, Option, List, String}
use go_identity_service.Apperror.{Error}
use go_identity_service.User.Model.{User, CachedUser}
use go_identity_service.Auth.Model.{Claims}

-- The message events.user.v1.UserRegistered.
pub record UserRegistered : Type 0 where
  pub user_id : ℤ
  pub email : Text
  pub role : String

pub record External : Type 0 where
  -- bcrypt.GenerateFromPassword and bcrypt.CompareHashAndPassword
  pub bcrypt_generate : ℕ → ℕ → Text → Option Text
  pub bcrypt_compare : Text → Text → Bool
  -- rand.Read of 32 bytes in base64.RawURLEncoding
  pub random_token : ℕ → Option Text
  -- hex of sha256.Sum256
  pub sha256_hex : Text → Text
  -- jwt: NewNumericDate, SignedString with HS256, and ParseWithClaims as token.go calls it, with the
  -- secret, the issuer that WithIssuer wants and the time
  pub numeric_date : ℕ → ℕ
  pub sign : Text → Claims → Option Text
  pub parse : Text → Text → ℕ → Text → Option Claims
  -- proto.Marshal and proto.Unmarshal of UserRegistered
  pub proto_marshal : UserRegistered → Option (List ℕ)
  pub proto_unmarshal : List ℕ → Option UserRegistered
  -- json.Marshal and json.Unmarshal of cachedUser, and json.Marshal of the audit payload
  pub encode_cached : CachedUser → Option Text
  pub decode_cached : Text → Option CachedUser
  pub encode_audit : UserRegistered → Option Text
  -- mail.ParseAddress succeeds
  pub parse_address : Text → Bool
  -- unicode.ToLower outside ASCII
  pub unicode_lower : ℕ → ℕ
  -- err.Error() of a failed publication
  pub error_text : Error → Text
  -- PostgreSQL's `value ilike pattern`, and its collation: whether a text sorts at or before another
  pub ilike : Text → Text → Bool
  pub collate_leb : Text → Text → Bool
  -- the place in which the query with a number comes upon a row
  pub rank : ℕ → User → ℕ
  -- fmt's %q, and the host of net.SplitHostPort
  pub quote : Text → Text
  pub split_host : Text → Option Text
  -- the partition that the client's partitioner chooses for a key
  pub partition_of : Text → ℕ

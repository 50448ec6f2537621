-- ===== src/User/Inputs.antt =====
-- The types of internal/user/service.go: the service's fields, the inputs of its methods, and a result.
use go_identity_service.Base.{ℕ, ℤ, Text, Bool, Option}
use go_identity_service.User.Model.{User, Profile}

pub record CacheConfig : Type 0 where
  pub prefix : Text
  pub ttl : ℕ

-- Whether `txFactory` is set, and the cache if `WithCache` was given.
pub record Service : Type 0 where
  pub has_tx_factory : Bool
  pub cache : Option CacheConfig

pub record CreateUserInput : Type 0 where
  pub name : Text
  pub email : Text
  pub age : ℤ
  pub password : Text

pub record UpdateUserInput : Type 0 where
  pub name : Text
  pub email : Text
  pub age : ℤ

pub record CreateUserWithProfileInput : Type 0 where
  pub name : Text
  pub email : Text
  pub age : ℤ
  pub password : Text
  pub bio : Text

pub record ProfileWithUser : Type 0 where
  pub user : User
  pub profile : Profile

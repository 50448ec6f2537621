-- ===== src/User/Model.antt =====
-- internal/user/model.go, profile.go, dto.go (the responses) and cachedUser of user_cache.go.
use go_identity_service.Base.{ℕ, ℤ, Text, String, Bool, ◌||◌, str_eq, List, [], map}

abbrev pub Role : Type 0
Role = String

abbrev pub role_user : Role
role_user = "USER"

abbrev pub role_admin : Role
role_admin = "ADMIN"

-- Role.IsValid
unfoldable pub role_is_valid : Role → Bool
role_is_valid r = str_eq r role_user || str_eq r role_admin

pub record User : Type 0 where
  pub id : ℤ
  pub name : Text
  pub email : Text
  pub age : ℤ
  pub role : Role
  pub password_hash : Text
  pub created_at : ℕ
  pub updated_at : ℕ

pub record Profile : Type 0 where
  pub id : ℤ
  pub user_id : ℤ
  pub bio : Text
  pub created_at : ℕ
  pub updated_at : ℕ

pub record CachedUser : Type 0 where
  pub id : ℤ
  pub name : Text
  pub email : Text
  pub age : ℤ
  pub role : Role
  pub created_at : ℕ
  pub updated_at : ℕ

unfoldable pub cached_user_from_domain : User → CachedUser
cached_user_from_domain u = record {
  id = u.id;
  name = u.name;
  email = u.email;
  age = u.age;
  role = u.role;
  created_at = u.created_at;
  updated_at = u.updated_at;
}

unfoldable pub to_domain : CachedUser → User
to_domain u = record {
  id = u.id;
  name = u.name;
  email = u.email;
  age = u.age;
  role = u.role;
  password_hash = [];
  created_at = u.created_at;
  updated_at = u.updated_at;
}

pub record UserResponse : Type 0 where
  pub id : ℤ
  pub name : Text
  pub email : Text
  pub age : ℤ
  pub role : Role
  pub created_at : ℕ
  pub updated_at : ℕ

pub record ProfileResponse : Type 0 where
  pub id : ℤ
  pub user_id : ℤ
  pub bio : Text
  pub created_at : ℕ
  pub updated_at : ℕ

pub record UserWithProfileResponse : Type 0 where
  pub user : UserResponse
  pub profile : ProfileResponse

unfoldable pub to_response : User → UserResponse
to_response u = record {
  id = u.id;
  name = u.name;
  email = u.email;
  age = u.age;
  role = u.role;
  created_at = u.created_at;
  updated_at = u.updated_at;
}

unfoldable pub profile_to_response : Profile → ProfileResponse
profile_to_response p = record {
  id = p.id;
  user_id = p.user_id;
  bio = p.bio;
  created_at = p.created_at;
  updated_at = p.updated_at;
}

unfoldable pub to_response_list : List User → List UserResponse
unfolding to_response
to_response_list = map to_response

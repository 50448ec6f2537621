-- ===== src/Consistency.antt =====
-- What holds of the tables of users, profiles and refresh tokens in every state that the service's
-- operations reach, and that each operation preserves it.
mod Rows
mod Deletion
mod Links
mod Steps
pub mod Operations
use go_identity_service.Base.{ℤ, Text, ◌≡◌, true, any, List, IsMember}
use go_identity_service.World.{Tables}
use go_identity_service.User.Model.{User, Profile, role_is_valid}
use go_identity_service.User.Repository.{has_id}
use go_identity_service.Auth.Model.{RefreshToken}

-- No address stands under two ids, each user has a role that exists, each profile and each refresh token
-- belongs to a user, and no hash of a token stands under two ids.
pub record IsConsistent (t : Tables) : Type 0 where
  pub emails :
      (a b : User) → IsMember a t.users → IsMember b t.users → a.email ≡ b.email → a.id ≡ b.id
  pub roles : (a : User) → IsMember a t.users → role_is_valid a.role ≡ true
  pub profiles : (p : Profile) → IsMember p t.user_profiles → any (has_id p.user_id) t.users ≡ true
  pub tokens :
      (r : RefreshToken) → IsMember r t.refresh_tokens → any (has_id r.user_id) t.users ≡ true
  pub hashes :
      (a b : RefreshToken)
      → IsMember a t.refresh_tokens
      → IsMember b t.refresh_tokens
      → a.token_hash ≡ b.token_hash
      → a.id ≡ b.id

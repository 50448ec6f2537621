-- ===== src/Consistency/Steps.antt =====
-- The methods that the services are built from preserve the consistency of the tables.
use go_identity_service.Base.{ℕ, ℤ, Text, Option, none, some, List, [], ◌∷◌}
use go_identity_service.External.{External}
use go_identity_service.World.{World, Tables, M, time_now, read_delays, next_entropy}
use go_identity_service.World.Preserves.{
  Preserves, Preserves-bind, TxOutcome-Preserves, preserves_rules,
}
use go_identity_service.User.Model.{User, Profile, Role}
use go_identity_service.User.Repository as Users
use go_identity_service.User.Repository.{
  row, insert_user, insert_profile, select_by_id, select_by_email, select_exists, update_user,
  delete_user,
}
use go_identity_service.User.Cache.Preserved.{
  get_user-Preserves, set_user-Preserves, delete_user-Preserves,
}
use go_identity_service.User.Tx as UserTx
use go_identity_service.User.Tx.Outcome as UserOutcome
use go_identity_service.Auth.Model.{RefreshToken}
use go_identity_service.Auth.Token
use go_identity_service.Auth.Token.{TokenManager}
use go_identity_service.Auth.Password
use go_identity_service.Auth.Tx as AuthTx
use go_identity_service.Auth.Tx.Outcome as AuthOutcome
use go_identity_service.Auth.RefreshTokens as RefreshTokens
use go_identity_service.Auth.RefreshTokens.{insert_token, select_token, update_revoked}
use go_identity_service.Outbox.Model.{Event}
use go_identity_service.Outbox.Repository as OutboxStore
use go_identity_service.Outbox.Repository.{insert_event}
use go_identity_service.Consistency.{IsConsistent}
use go_identity_service.Consistency.Rows.{insert_user-IsConsistent, update_user-IsConsistent}
use go_identity_service.Consistency.Deletion.{delete_user-IsConsistent}
use go_identity_service.Consistency.Links.{
  insert_profile-IsConsistent, insert_token-IsConsistent, update_revoked-IsConsistent,
  insert_event-IsConsistent,
}

module _ {P : Tables → Type 0} where
  pub time_now-Preserves : Preserves P time_now
  unfolding time_now
  time_now-Preserves = record { at = λ w h. go w.delays w h }
    where
      go : (l : List ℕ) (w : World) → P w.tables → P (read_delays l w).1.tables
      go [] w h = h
      go (d ∷ rest) w h = h

  pub next_entropy-Preserves : Preserves P next_entropy
  unfolding next_entropy
  next_entropy-Preserves = record { at = λ w h. h }

  row-Preserves : {A : Type 0} (f : World → Option A) → Preserves P (λ w. row (f w) w)
  row-Preserves {A = A} f = record { at = λ w h. go (f w) w h }
    where
      go : (o : Option A) (w : World) → P w.tables → P (row o w).1.tables
      go none w h = h
      go (some a) w h = h

  module _ (x : External) where
    pub hash-Preserves : (password : Text) → Preserves P (Password.hash x password)
    unfolding Password.hash
    hash-Preserves password = search (preserves_rules, next_entropy-Preserves) depth 30

    pub generate-Preserves :
        (m : TokenManager) (id : ℤ) (email : Text) (role : Role)
        → Preserves P (Token.generate x m id email role)
    unfolding Token.generate
    generate-Preserves m id email role = search (preserves_rules, time_now-Preserves) depth 30

    pub generate_refresh-Preserves : Preserves P (Token.generate_refresh x)
    unfolding Token.generate_refresh
    generate_refresh-Preserves = search (preserves_rules, next_entropy-Preserves) depth 30

  pub user_tx-Preserves :
      {A : Type 0} (fn : M A) → Preserves P fn → Preserves P (UserTx.within_tx fn)
  user_tx-Preserves fn k = record {
    at = λ w h. TxOutcome-Preserves fn k (UserOutcome.within_tx-TxOutcome fn w) h;
  }

  pub auth_tx-Preserves :
      {A : Type 0} (fn : M A) → Preserves P fn → Preserves P (AuthTx.within_tx fn)
  auth_tx-Preserves fn k = record {
    at = λ w h. TxOutcome-Preserves fn k (AuthOutcome.within_tx-TxOutcome fn w) h;
  }

pub create-IsConsistent : (u : User) → Preserves IsConsistent (Users.create u)
unfolding Users.create
create-IsConsistent u = search (preserves_rules, insert_user-IsConsistent) depth 30

pub find_by_id-IsConsistent : (id : ℤ) → Preserves IsConsistent (Users.find_by_id id)
unfolding Users.find_by_id select_by_id
find_by_id-IsConsistent id = search (preserves_rules, row-Preserves) depth 30

pub create_profile-IsConsistent : (p : Profile) → Preserves IsConsistent (Users.create_profile p)
unfolding Users.create_profile
create_profile-IsConsistent p = search (preserves_rules, insert_profile-IsConsistent) depth 30

pub delete-IsConsistent : (id : ℤ) → Preserves IsConsistent (Users.delete id)
unfolding Users.delete
delete-IsConsistent id = search (preserves_rules, delete_user-IsConsistent) depth 30

pub find_by_email-IsConsistent : (email : Text) → Preserves IsConsistent (Users.find_by_email email)
unfolding Users.find_by_email select_by_email
find_by_email-IsConsistent email = search (preserves_rules, row-Preserves) depth 30

pub select_exists-IsConsistent : (email : Text) → Preserves IsConsistent (select_exists email)
unfolding select_exists
select_exists-IsConsistent email = record { at = λ w h. h }

pub exists_by_email-IsConsistent :
    (email : Text) → Preserves IsConsistent (Users.exists_by_email email)
unfolding Users.exists_by_email
exists_by_email-IsConsistent email = search (preserves_rules, select_exists-IsConsistent) depth 30

pub update-IsConsistent : (u : User) → Preserves IsConsistent (Users.update u)
unfolding Users.update
update-IsConsistent u = search (preserves_rules, update_user-IsConsistent) depth 30

pub create_refresh_token-IsConsistent :
    (t : RefreshToken) → Preserves IsConsistent (RefreshTokens.create_refresh_token t)
unfolding RefreshTokens.create_refresh_token
create_refresh_token-IsConsistent t = search (preserves_rules, insert_token-IsConsistent) depth 30

pub find_refresh_token-IsConsistent :
    (hash : Text) → Preserves IsConsistent (RefreshTokens.find_refresh_token_by_hash hash)
unfolding RefreshTokens.find_refresh_token_by_hash select_token
find_refresh_token-IsConsistent hash = search (preserves_rules, row-Preserves) depth 30

pub revoke_refresh_token-IsConsistent :
    (id : ℤ) → Preserves IsConsistent (RefreshTokens.revoke_refresh_token id)
unfolding RefreshTokens.revoke_refresh_token
revoke_refresh_token-IsConsistent id =
    search (preserves_rules, update_revoked-IsConsistent) depth 30

pub create_event-IsConsistent : (e : Event) → Preserves IsConsistent (OutboxStore.create e)
unfolding OutboxStore.create
create_event-IsConsistent e = search (preserves_rules, insert_event-IsConsistent) depth 30

pub ruleset consistent_steps = (
  preserves_rules, create-IsConsistent, find_by_id-IsConsistent, find_by_email-IsConsistent,
  exists_by_email-IsConsistent, update-IsConsistent, delete-IsConsistent,
  create_profile-IsConsistent, create_refresh_token-IsConsistent, find_refresh_token-IsConsistent,
  revoke_refresh_token-IsConsistent, create_event-IsConsistent, time_now-Preserves,
  next_entropy-Preserves, hash-Preserves, generate-Preserves, generate_refresh-Preserves,
  get_user-Preserves, set_user-Preserves, delete_user-Preserves, user_tx-Preserves,
  auth_tx-Preserves,
)

-- ===== src/Auth/Service/Answers.antt =====
-- The answers that the transactions of internal/auth/service.go take.
use go_identity_service.Base.{ℕ, ℤ, Text, Option, none, some, List, [], ◌∷◌, arith, ◌≡◌, refl}
use go_identity_service.External.{External}
use go_identity_service.World.{World, time_now, read_delays}
use go_identity_service.World.Answers.{Takes, Keeps-Takes, takes_rules}
use go_identity_service.User.Model.{User, Role}
use go_identity_service.User.Repository.{row, select_by_id, find_by_id}
use go_identity_service.User.Service.Answers.{
  next_entropy-Takes, exists_by_email-Takes, create-Takes, create_event-Takes, marshal-Takes,
}
use go_identity_service.Auth.Model.{RefreshToken}
use go_identity_service.Auth.Token
use go_identity_service.Auth.Token.{TokenManager}
use go_identity_service.Auth.RefreshTokens.{
  insert_token, select_token, update_revoked, create_refresh_token, find_refresh_token_by_hash,
  revoke_refresh_token,
}
use go_identity_service.Auth.Service.{
  Service, RegisterRequest, issue_token_pair, register_tx, refresh_active, refresh_tx,
}

insert_token-Takes : (t : RefreshToken) → Takes (insert_token t)
unfolding insert_token
insert_token-Takes t = Keeps-Takes _ (record { at = λ w. ground arith })

update_revoked-Takes : (id : ℤ) → Takes (update_revoked id)
unfolding update_revoked
update_revoked-Takes id = Keeps-Takes _ (record { at = λ w. refl })

row-Takes : {A : Type 0} (f : World → Option A) → Takes (λ w. row (f w) w)
row-Takes {A} f = Keeps-Takes _ (record { at = λ w. go (f w) w })
  where
    go : (o : Option A) (w : World) → (row o w).1.answers ≡ w.answers
    go none w = refl
    go (some a) w = refl

time_now-Takes : Takes time_now
unfolding time_now
time_now-Takes = Keeps-Takes _ (record { at = λ w. go w.delays w })
  where
    go : (l : List ℕ) (w : World) → (read_delays l w).1.answers ≡ w.answers
    go [] w = refl
    go (d ∷ rest) w = refl

find_by_id-Takes : (id : ℤ) → Takes (find_by_id id)
unfolding find_by_id select_by_id
find_by_id-Takes id = search (takes_rules, row-Takes) depth 30

create_refresh_token-Takes : (t : RefreshToken) → Takes (create_refresh_token t)
unfolding create_refresh_token
create_refresh_token-Takes t = search (takes_rules, insert_token-Takes) depth 30

find_refresh_token-Takes : (hash : Text) → Takes (find_refresh_token_by_hash hash)
unfolding find_refresh_token_by_hash select_token
find_refresh_token-Takes hash = search (takes_rules, row-Takes) depth 30

revoke_refresh_token-Takes : (id : ℤ) → Takes (revoke_refresh_token id)
unfolding revoke_refresh_token
revoke_refresh_token-Takes id = search (takes_rules, update_revoked-Takes) depth 30

module _ (x : External) where
  generate-Takes :
      (m : TokenManager) (id : ℤ) (email : Text) (role : Role)
      → Takes (Token.generate x m id email role)
  unfolding Token.generate
  generate-Takes m id email role = search (takes_rules, time_now-Takes) depth 30

  generate_refresh-Takes : Takes (Token.generate_refresh x)
  unfolding Token.generate_refresh
  generate_refresh-Takes = search (takes_rules, next_entropy-Takes) depth 30

  module _ (s : Service) where
    issue_token_pair-Takes : (u : User) → Takes (issue_token_pair x s u)
    unfolding issue_token_pair
    issue_token_pair-Takes u =
        search
          (
            takes_rules, generate-Takes, generate_refresh-Takes, time_now-Takes,
            create_refresh_token-Takes,
          )
          depth 40

    pub register_tx-Takes :
        (req : RegisterRequest) (name email hash : Text)
        → Takes (register_tx x s req name email hash)
    unfolding register_tx
    register_tx-Takes req name email hash =
        search
          (
            takes_rules, exists_by_email-Takes, create-Takes, issue_token_pair-Takes, marshal-Takes,
            create_event-Takes,
          )
          depth 40

    refresh_active-Takes : (t : RefreshToken) → Takes (refresh_active x s t)
    unfolding refresh_active
    refresh_active-Takes t =
        search (takes_rules, find_by_id-Takes, issue_token_pair-Takes, revoke_refresh_token-Takes)
          depth 40

    pub refresh_tx-Takes : (hash : Text) → Takes (refresh_tx x s hash)
    unfolding refresh_tx
    refresh_tx-Takes hash =
        search (takes_rules, find_refresh_token-Takes, time_now-Takes, refresh_active-Takes) depth
          40

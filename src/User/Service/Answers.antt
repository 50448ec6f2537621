-- ===== src/User/Service/Answers.antt =====
-- The answers that the transactions of internal/user/service.go take.
use go_identity_service.Base.{ℤ, Text, refl, arith}
use go_identity_service.External.{External, UserRegistered}
use go_identity_service.World.{next_entropy}
use go_identity_service.World.Answers.{Takes, Keeps-Takes, takes_rules}
use go_identity_service.User.Model.{User, Profile}
use go_identity_service.User.Repository.{
  insert_user, insert_profile, select_exists, exists_by_email, create, create_profile,
}
use go_identity_service.User.Service.{
  marshal_user_registered, create_outbox_event, create_user_tx, create_user_with_profile_tx,
}
use go_identity_service.Auth.Password
use go_identity_service.Outbox.Model.{Event}
use go_identity_service.Outbox.Repository as OutboxStore
use go_identity_service.Outbox.Repository.{insert_event}

insert_user-Takes : (u : User) → Takes (insert_user u)
unfolding insert_user
insert_user-Takes u = Keeps-Takes _ (record { at = λ w. ground arith })

insert_profile-Takes : (p : Profile) → Takes (insert_profile p)
unfolding insert_profile
insert_profile-Takes p = Keeps-Takes _ (record { at = λ w. ground arith })

insert_event-Takes : (e : Event) → Takes (insert_event e)
unfolding insert_event
insert_event-Takes e = Keeps-Takes _ (record { at = λ w. ground arith })

select_exists-Takes : (email : Text) → Takes (select_exists email)
unfolding select_exists
select_exists-Takes email = Keeps-Takes _ (record { at = λ w. refl })

pub next_entropy-Takes : Takes next_entropy
unfolding next_entropy
next_entropy-Takes = Keeps-Takes _ (record { at = λ w. refl })

pub exists_by_email-Takes : (email : Text) → Takes (exists_by_email email)
unfolding exists_by_email
exists_by_email-Takes email = search (takes_rules, select_exists-Takes) depth 30

pub create-Takes : (u : User) → Takes (create u)
unfolding create
create-Takes u = search (takes_rules, insert_user-Takes) depth 30

create_profile-Takes : (p : Profile) → Takes (create_profile p)
unfolding create_profile
create_profile-Takes p = search (takes_rules, insert_profile-Takes) depth 30

pub create_event-Takes : (e : Event) → Takes (OutboxStore.create e)
unfolding OutboxStore.create
create_event-Takes e = search (takes_rules, insert_event-Takes) depth 30

module _ (x : External) where
  pub hash-Takes : (password : Text) → Takes (Password.hash x password)
  unfolding Password.hash
  hash-Takes password = search (takes_rules, next_entropy-Takes) depth 30

  pub marshal-Takes : (m : UserRegistered) → Takes (marshal_user_registered x m)
  unfolding marshal_user_registered
  marshal-Takes m = search takes_rules depth 30

  create_outbox_event-Takes : (u : User) → Takes (create_outbox_event x u)
  unfolding create_outbox_event
  create_outbox_event-Takes u = search (takes_rules, marshal-Takes, create_event-Takes) depth 30

  pub create_user_tx-Takes :
      (name email : Text) (age : ℤ) (password : Text)
      → Takes (create_user_tx x name email age password)
  unfolding create_user_tx
  create_user_tx-Takes name email age password =
      search (takes_rules, exists_by_email-Takes, create-Takes, create_outbox_event-Takes) depth 40

  pub create_user_with_profile_tx-Takes :
      (name email : Text) (age : ℤ) (bio hash : Text)
      → Takes (create_user_with_profile_tx x name email age bio hash)
  unfolding create_user_with_profile_tx
  create_user_with_profile_tx-Takes name email age bio hash =
      search
        (
          takes_rules, exists_by_email-Takes, create-Takes, create_profile-Takes,
          create_outbox_event-Takes,
        )
        depth 40

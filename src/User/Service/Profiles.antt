-- ===== src/User/Service/Profiles.antt =====
-- CreateUserWithProfile of internal/user/service.go: user, profile and event are written together.
use go_identity_service.User.Service.Answers.{hash-Takes, create_user_with_profile_tx-Takes}
use go_identity_service.Base.{
  ℕ, ℤ, pos, Text, trim_space, ◌≡◌, refl, sym, ap, ◌∙◌, false, inl, inr, Option, some, [], ◌∷◌,
  ◌++◌, any, Bool-cases, Option-cases,
}
use go_identity_service.Apperror.{Error, ok}
use go_identity_service.External.{External}
use go_identity_service.World.{World, Tables, M, ◌>>=◌, pure, fail}
use go_identity_service.World.Rules.{bind-ok, map_err-ok, pure-ok, unless-ok}
use go_identity_service.World.Transaction.{
  AllOrNothing, failed, TxOutcome-AllOrNothing, AllOrNothing-bind,
}
use go_identity_service.User.Model.{User, Profile, role_user}
use go_identity_service.User.Repository.{has_email, without_hash}
use go_identity_service.User.Repository.Effects.{
  Created, create-ok, exists_by_email-ok, with_user, user_row, ProfileCreated, create_profile-ok,
  profile_row,
}
use go_identity_service.User.Tx.{within_tx}
use go_identity_service.User.Tx.Outcome.{within_tx-TxOutcome}
use go_identity_service.User.Validation.{validate_user_input, normal_email}
use go_identity_service.User.Service.{
  Service, CreateUserWithProfileInput, ProfileWithUser, new_user, create_user_with_profile_tx,
  create_user_with_profile,
}
use go_identity_service.User.Service.Registration.{
  Announces, create_outbox_event-ok, hash-ok, tables-hash,
}
use go_identity_service.Auth.Password
use go_identity_service.Outbox.Model.{Event}
use go_identity_service.Outbox.Repository.Effects.{with_event}

abbrev pub with_profile : Tables → Profile → Tables
with_profile t p = record t { user_profiles = t.user_profiles ++ p ∷ [] }

abbrev new_profile : ℤ → Text → Profile
new_profile user_id bio = record {
  id = pos 0;
  user_id = user_id;
  bio = bio;
  created_at = 0;
  updated_at = 0;
}

module _ (x : External) where
  -- One user, its profile and the event that announces the user are new in the tables.
  pub record Enrolled (input : CreateUserWithProfileInput) (t t' : Tables) (r : ProfileWithUser)
      : Type 0 where
    pub user : User
    pub profile : Profile
    pub event : Event
    pub free : any (has_email (normal_email x input.email)) t.users ≡ false
    pub name_is : user.name ≡ trim_space input.name
    pub email_is : user.email ≡ normal_email x input.email
    pub age_is : user.age ≡ input.age
    pub role_is : user.role ≡ role_user
    pub owner_is : profile.user_id ≡ user.id
    pub bio_is : profile.bio ≡ trim_space input.bio
    pub announced : Announces x (without_hash user) event
    pub tables : t' ≡ with_event (with_profile (with_user t user) profile) event
    pub user_returned : r.user ≡ without_hash user
    pub profile_returned : r.profile ≡ profile
    pub salt : ℕ
    pub hashed : x.bcrypt_generate 12 salt input.password ≡ some user.password_hash

  module _ (input : CreateUserWithProfileInput) (hash : Text) (salt : ℕ)
      (hashed : x.bcrypt_generate 12 salt input.password ≡ some hash) where
    abbrev new_row : User
    new_row = new_user (trim_space input.name) (normal_email x input.email) input.age hash

    abbrev body : M ProfileWithUser
    body =
        create_user_with_profile_tx x (trim_space input.name) (normal_email x input.email) input.age
          (trim_space input.bio) hash

    assemble :
        (w v v' v'' : World) (created : User) (profile : Profile) (event : Event)
        → v.tables ≡ w.tables
        → any (has_email (normal_email x input.email)) w.tables.users ≡ false
        → Created new_row v created v'
        → ProfileCreated (new_profile created.id (trim_space input.bio)) v' profile v''
        → Announces x created event
        → {t' : Tables} → t' ≡ with_event v''.tables event
        → {r : ProfileWithUser} → record { user = created; profile = profile } ≡ r
        → Enrolled input w.tables t' r
    unfolding without_hash
    assemble w v v' v'' created profile event same free c k announced t is_r = record {
      user = user_row new_row v;
      profile = profile_row (new_profile created.id (trim_space input.bio)) v';
      event = event;
      free = free;
      name_is = refl;
      email_is = refl;
      age_is = refl;
      role_is = refl;
      owner_is = ap (λ (u : User). u.id) c.returned;
      bio_is = refl;
      announced = rw (c.returned) at announced;
      tables =
          t
          ∙ ap (λ (y : Tables). with_event y event)
              (k.tables
                ∙ ap
                    (λ (y : Tables).
                      with_profile y
                        (profile_row (new_profile created.id (trim_space input.bio)) v'))
                    (c.tables ∙ ap (λ (y : Tables). with_user y (user_row new_row v)) same));
      user_returned = ap (λ (y : ProfileWithUser). y.user) (sym is_r) ∙ c.returned;
      profile_returned = ap (λ (y : ProfileWithUser). y.profile) (sym is_r) ∙ k.returned;
      salt = salt;
      hashed = hashed;
    }

    body-ok :
        (w : World) {r : ProfileWithUser} {w' : World}
        → body w ≡ (ok r, w')
        → Enrolled input w.tables w'.tables r
    unfolding create_user_with_profile_tx
    body-ok w h = bind-ok _ _ w h λ exists v p q.
        let (rest, is_v, is_b) = exists_by_email-ok _ w (map_err-ok _ _ w p) in
        let (free, q1) = unless-ok exists _ _ v q in
        bind-ok _ _ v q1 λ created v' p1 q2. bind-ok _ _ v' q2 λ profile v'' p2 q3.
          bind-ok _ _ v'' q3 λ done v3 p3 q4.
            let (event, announced, t) =
              create_outbox_event-ok x created v'' (map_err-ok _ _ v'' p3) in
            let (is_r, is_w) = pure-ok _ v3 q4 in
            assemble w v v' v'' created profile event (ap (λ (y : World). y.tables) is_v)
              (sym is_b ∙ free) (create-ok _ v (map_err-ok _ _ v p1))
              (create_profile-ok _ v' (map_err-ok _ _ v' p2)) announced
              (ap (λ (y : World). y.tables) (sym is_w) ∙ t) is_r

  -- CreateUserWithProfile writes a user with its profile and its event and returns both, or fails and
  -- leaves every table as it was, or fails with all three written when the last answer that it took was
  -- lost: a call took effect and its reply did not arrive.
  pub create_user_with_profile_atomic :
      (s : Service) (input : CreateUserWithProfileInput) (w : World)
      → AllOrNothing (Enrolled input) w (create_user_with_profile x s input w)
  unfolding create_user_with_profile ◌>>=◌ pure fail
  create_user_with_profile_atomic s input w = elim (Bool-cases s.has_tx_factory) [
    | inr absent ↦ rw absent (failed _ refl refl)
    | inl set ↦ rw set (elim (Option-cases validation) [
      | inr (e, invalid) ↦ rw (invalid, ◌>>=◌) (failed e refl refl)
      | inl valid ↦ rw (valid, ◌>>=◌) accepted
    ])
  ]
    where
      validation : Option Error
      validation = validate_user_input x input.name input.email input.age

      accepted : AllOrNothing (Enrolled input) w (
          (Password.hash x input.password >>= λ hash. within_tx (
              create_user_with_profile_tx x
                (trim_space input.name)
                (normal_email x input.email)
                input.age
                (trim_space input.bio)
                hash))
            w)
      accepted =
          AllOrNothing-bind (Enrolled input) (Password.hash x input.password) _ w
            (tables-hash x input.password) (hash-Takes x input.password)
            λ hash p.
              TxOutcome-AllOrNothing (Enrolled input) _ (Password.hash x input.password w).1
                (create_user_with_profile_tx-Takes x _ _ _ _ hash)
                (λ rest r v' e.
                  let (salt, hashed) = hash-ok x input.password w p in
                  body-ok input hash salt hashed _ e)
                (within_tx-TxOutcome _ _)

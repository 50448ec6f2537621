-- ===== src/Auth/Service/Registration.antt =====
-- Register of internal/auth/service.go: user, first refresh token and event are written together.
use go_identity_service.Auth.Service.Answers.{register_tx-Takes}
use go_identity_service.User.Service.Answers.{hash-Takes}
use go_identity_service.Base.{ℕ, Text, trim_space, ◌≡◌, refl, sym, ap, subst, ◌∙◌, false, some, any}
use go_identity_service.Apperror.{ok}
use go_identity_service.External.{External}
use go_identity_service.World.{World, Tables}
use go_identity_service.World.Rules.{bind-ok, map_err-ok, pure-ok, unless-ok}
use go_identity_service.World.Transaction.{AllOrNothing, TxOutcome-AllOrNothing, AllOrNothing-bind}
use go_identity_service.User.Model.{User, role_user}
use go_identity_service.User.Repository.{has_email, without_hash}
use go_identity_service.User.Repository.Effects.{
  Created, create-ok, exists_by_email-ok, with_user, user_row,
}
use go_identity_service.User.Validation.{normal_email}
use go_identity_service.User.Service.{new_user, registered_event}
use go_identity_service.User.Service.Registration.{Announces, marshal-ok, hash-ok, tables-hash}
use go_identity_service.Outbox.Model.{Event}
use go_identity_service.Outbox.Repository.Effects.{with_event, event_row, EventCreated}
use go_identity_service.Outbox.Repository.Effects
use go_identity_service.Auth.Model.{AuthResponse}
use go_identity_service.Auth.Password
use go_identity_service.Auth.Tx.Outcome.{within_tx-TxOutcome}
use go_identity_service.Auth.Service.{
  Service, RegisterRequest, auth_response, register_tx, register,
}
use go_identity_service.Auth.Service.Tokens.{Issued, issue_token_pair-ok}

module _ (x : External) (s : Service) where
  -- A user with the role USER under a bcrypt hash, its first token pair and the event that announces
  -- it. The response holds the pair and the user without the hash.
  pub record SignedUp (req : RegisterRequest) (t t' : Tables) (r : AuthResponse) : Type 0 where
    pub user : User
    pub pair : Text × Text
    pub event : Event
    pub issued_tables : Tables
    pub free : any (has_email (normal_email x req.email)) t.users ≡ false
    pub name_is : user.name ≡ trim_space req.name
    pub email_is : user.email ≡ normal_email x req.email
    pub age_is : user.age ≡ req.age
    pub role_is : user.role ≡ role_user
    pub issued : Issued x s (without_hash user) pair (with_user t user) issued_tables
    pub announced : Announces x (without_hash user) event
    pub tables : t' ≡ with_event issued_tables event
    pub response : r ≡ auth_response (without_hash user) pair
    pub salt : ℕ
    pub hashed : x.bcrypt_generate 12 salt req.password ≡ some user.password_hash

  module _ (req : RegisterRequest) (hash : Text) (salt : ℕ)
      (hashed : x.bcrypt_generate 12 salt req.password ≡ some hash) where
    abbrev new_row : User
    new_row = record (new_user (trim_space req.name) (normal_email x req.email) req.age hash) {
      role = role_user;
    }

    assemble :
        (w v v1 v2 : World) (created : User) (pair : Text × Text) (event : Event)
        → v.tables ≡ w.tables
        → any (has_email (normal_email x req.email)) w.tables.users ≡ false
        → Created new_row v created v1
        → Issued x s created pair v1.tables v2.tables
        → Announces x created event
        → {t' : Tables} → t' ≡ with_event v2.tables event
        → {r : AuthResponse} → r ≡ auth_response created pair
        → SignedUp req w.tables t' r
    assemble w v v1 v2 created pair event same free c issued announced t is_r = record {
      user = user_row new_row v;
      pair = pair;
      event = event;
      issued_tables = v2.tables;
      free = free;
      name_is = refl;
      email_is = refl;
      age_is = refl;
      role_is = refl;
      issued =
          subst (λ (y : Tables). Issued x s (without_hash (user_row new_row v)) pair y v2.tables)
            (c.tables ∙ ap (λ (y : Tables). with_user y (user_row new_row v)) same)
            (subst (λ (y : User). Issued x s y pair v1.tables v2.tables) c.returned issued);
      announced = subst (λ (y : User). Announces x y event) c.returned announced;
      tables = t;
      response = is_r ∙ ap (λ (y : User). auth_response y pair) c.returned;
      salt = salt;
      hashed = hashed;
    }

    body-ok :
        (w : World) {r : AuthResponse} {w' : World}
        → register_tx x s req (trim_space req.name) (normal_email x req.email) hash w ≡ (ok r, w')
        → SignedUp req w.tables w'.tables r
    unfolding register_tx
    body-ok w h = bind-ok _ _ w h λ exists v p q.
        let (rest, is_v, is_b) = exists_by_email-ok _ w (map_err-ok _ _ w p) in
        let (free, q1) = unless-ok exists _ _ v q in
        bind-ok _ _ v q1 λ created v1 p1 q2. bind-ok _ _ v1 q2 λ pair v2 p2 q3.
          bind-ok _ _ v2 q3 λ payload v3 p3 q4. bind-ok _ _ v3 q4 λ done v4 p4 q5.
            let (is_payload, same3) = marshal-ok x created v2 p3 in
            let e =
              Effects.create-ok (registered_event created payload) v3 (map_err-ok _ _ v3 p4) in
            let (is_r, is_w) = pure-ok _ v4 q5 in
            assemble w v v1 v2 created pair (event_row (registered_event created payload) v3)
              (ap (λ (y : World). y.tables) is_v) (sym is_b ∙ free)
              (create-ok _ v (map_err-ok _ _ v p1)) (issue_token_pair-ok x s created v1 p2)
              (record { fields = (payload, v3, is_payload, refl) })
              (ap (λ (y : World). y.tables) (sym is_w)
                ∙ e.tables
                ∙ ap
                    (λ (y : World).
                      with_event y.tables (event_row (registered_event created payload) v3))
                    same3)
              (sym is_r)

  -- Register signs a user up with its first token pair and the event that announces it, all in one,
  -- or fails and leaves every table as it was, or fails with all of it written when the last answer
  -- that it took was lost: a call took effect and its reply did not arrive.
  pub register_atomic :
      (req : RegisterRequest) (w : World) → AllOrNothing (SignedUp req) w (register x s req w)
  unfolding register
  register_atomic req w =
      AllOrNothing-bind (SignedUp req) (Password.hash x req.password) _ w
        (tables-hash x req.password) (hash-Takes x req.password)
        λ hash p.
          TxOutcome-AllOrNothing (SignedUp req) _ (Password.hash x req.password w).1
            (register_tx-Takes x s req _ _ hash)
            (λ rest r v' e.
              let (salt, hashed) = hash-ok x req.password w p in body-ok req hash salt hashed _ e)
            (within_tx-TxOutcome _ _)

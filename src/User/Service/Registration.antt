-- ===== src/User/Service/Registration.antt =====
-- CreateUser of internal/user/service.go: the user and its outbox event are written together.
use go_identity_service.User.Service.Answers.{hash-Takes, create_user_tx-Takes}
use go_identity_service.Base.{
  ℕ, ℤ, Text, trim_space, ◌≡◌, refl, sym, ap, ◌∙◌, false, inl, inr, Option, none, some, List, any,
  arith, Bool-cases, Option-cases,
}
use go_identity_service.Apperror.{Error, ok}
use go_identity_service.External.{External}
use go_identity_service.World.{World, Tables, ◌>>=◌, pure, fail, next_entropy}
use go_identity_service.World.Rules.{bind-ok, map_err-ok, pure-ok, unless-ok, of_option-ok}
use go_identity_service.World.Transaction.{
  AllOrNothing, failed, TxOutcome-AllOrNothing, AllOrNothing-bind,
}
use go_identity_service.World.Keeps.{Keeps, Keeps-bind, keeps_rules}
use go_identity_service.User.Model.{User, role_user}
use go_identity_service.User.Repository.{has_email, without_hash}
use go_identity_service.User.Repository.Effects.{
  Created, create-ok, exists_by_email-ok, with_user, user_row,
}
use go_identity_service.User.Tx.{within_tx}
use go_identity_service.User.Tx.Outcome.{within_tx-TxOutcome}
use go_identity_service.User.Validation.{validate_user_input, normal_email}
use go_identity_service.User.Service.{
  Service, CreateUserInput, new_user, registered_event, registration, marshal_user_registered,
  create_outbox_event, create_user_tx, create_user,
}
use go_identity_service.Auth.Password
use go_identity_service.Outbox.Model.{Event}
use go_identity_service.Outbox.Repository.Effects.{EventCreated, event_row, with_event}
use go_identity_service.Outbox.Repository.Effects

module _ (x : External) where
  -- The event of a new user: it names the user, carries the message, and waits for the worker.
  pub record Announces (u : User) (e : Event) : Type 0 where
    pub fields :
        (payload : List ℕ) × (w : World) × (x.proto_marshal (registration u) ≡ some payload)
        × (e ≡ event_row (registered_event u payload) w)

  pub marshal-ok :
      (u : User) (w : World) {payload : List ℕ} {w' : World}
      → marshal_user_registered x (registration u) w ≡ (ok payload, w')
      → (x.proto_marshal (registration u) ≡ some payload) × (w' ≡ w)
  unfolding marshal_user_registered
  marshal-ok u w h = of_option-ok _ w (map_err-ok _ _ w h)

  pub create_outbox_event-ok :
      (u : User) (w : World) {w' : World}
      → create_outbox_event x u w ≡ (ok tt, w')
      → (e : Event) × Announces u e × (w'.tables ≡ with_event w.tables e)
  unfolding create_outbox_event
  create_outbox_event-ok u w h = bind-ok _ _ w h λ payload v p q.
      bind-ok _ _ v q λ created v' p' q'.
        let (is_payload, same) = marshal-ok u w p in
        let k = Effects.create-ok (registered_event u payload) v (map_err-ok _ _ v p') in
        (
          event_row (registered_event u payload) v,
          record { fields = (payload, v, is_payload, refl) },
          unfold pure in ground (arith, k.tables, same),
        )

  -- Exactly one user with the given columns and the event that announces it are new in the tables.
  pub record Registered (name email : Text) (age : ℤ) (hash : Text) (t t' : Tables) (u : User)
      : Type 0 where
    pub user : User
    pub event : Event
    pub free : any (has_email email) t.users ≡ false
    pub name_is : user.name ≡ name
    pub email_is : user.email ≡ email
    pub age_is : user.age ≡ age
    pub role_is : user.role ≡ role_user
    pub hash_is : user.password_hash ≡ hash
    pub announced : Announces (without_hash user) event
    pub tables : t' ≡ with_event (with_user t user) event
    pub returned : u ≡ without_hash user

  create_user_tx-ok :
      (name email : Text) (age : ℤ) (hash : Text) (w : World) {u : User} {w' : World}
      → create_user_tx x name email age hash w ≡ (ok u, w')
      → Registered name email age hash w.tables w'.tables u
  unfolding create_user_tx
  create_user_tx-ok name email age hash w h = bind-ok _ _ w h λ exists v p q.
      let (rest, is_v, is_b) = exists_by_email-ok email w (map_err-ok _ _ w p) in
      let (free, q) = unless-ok exists _ _ v q in
      bind-ok _ _ v q λ created v' p' q'. bind-ok _ _ v' q' λ done v'' p'' q''.
        let (event, announced, t) = create_outbox_event-ok created v' (map_err-ok _ _ v' p'') in
        let (is_u, is_w) = pure-ok created v'' q'' in
        assemble v created v' event (ap (λ (y : World). y.tables) is_v) (sym is_b ∙ free)
          (create-ok _ v (map_err-ok _ _ v p')) announced
          (ap (λ (y : World). y.tables) (sym is_w) ∙ t) (sym is_u)
    where
      assemble :
          (v : World) (created : User) (v' : World) (event : Event)
          → v.tables ≡ w.tables
          → any (has_email email) w.tables.users ≡ false
          → Created (new_user name email age hash) v created v'
          → Announces created event
          → {t' : Tables} → t' ≡ with_event v'.tables event
          → {u : User} → u ≡ created
          → Registered name email age hash w.tables t' u
      assemble v created v' event same free c announced t is_u = record {
        user = user_row (new_user name email age hash) v;
        event = event;
        free = free;
        name_is = refl;
        email_is = refl;
        age_is = refl;
        role_is = refl;
        hash_is = refl;
        announced = rw (c.returned) at announced;
        tables =
            t
            ∙ ap (λ (y : Tables). with_event y event)
                (c.tables
                  ∙ ap (λ (y : Tables). with_user y (user_row (new_user name email age hash) v))
                      same);
        returned = is_u ∙ c.returned;
      }

  -- What CreateUser promises of a request that it accepted: its input was valid, and a user with the
  -- normalised columns was registered under a bcrypt hash of the password.
  pub record Accepted (request : CreateUserInput) (t t' : Tables) (u : User) : Type 0 where
    pub valid :
        validate_user_input x (trim_space request.name) (normal_email x request.email) request.age
        ≡ none
    pub hash : Text
    pub salt : ℕ
    pub hashed : x.bcrypt_generate 12 salt request.password ≡ some hash
    pub registered :
        Registered (trim_space request.name) (normal_email x request.email) request.age hash t t' u

  pub hash-ok :
      (password : Text) (w : World) {h : Text} {w' : World}
      → Password.hash x password w ≡ (ok h, w')
      → (salt : ℕ) × (x.bcrypt_generate 12 salt password ≡ some h)
  unfolding Password.hash
  hash-ok password w e =
      bind-ok _ _ w e λ salt v p q. (salt, (of_option-ok _ v (map_err-ok _ _ v q)).0)

  pub tables-hash : (password : Text) → Keeps (λ w. w.tables) (Password.hash x password)
  unfolding Password.hash next_entropy
  tables-hash password = Keeps-bind _ _ (record { at = λ w. refl }) (λ salt. search keeps_rules)

  -- The part of CreateUser behind the validation.
  create_valid :
      (request : CreateUserInput)
      → validate_user_input x (trim_space request.name) (normal_email x request.email) request.age
        ≡ none
      → (w : World)
      → AllOrNothing (Accepted request) w (
          (do
            password ← Password.hash x request.password
            within_tx (
                create_user_tx x
                  (trim_space request.name)
                  (normal_email x request.email)
                  request.age
                  password))
            w)
  create_valid request valid w =
      AllOrNothing-bind (Accepted request) (Password.hash x request.password) _ w
        (tables-hash request.password) (hash-Takes x request.password)
        λ hash p.
          TxOutcome-AllOrNothing (Accepted request) _ (Password.hash x request.password w).1
            (create_user_tx-Takes x _ _ _ hash)
            (λ rest u v' e.
              let (salt, hashed) = hash-ok request.password w p in
              record {
                valid = valid;
                hash = hash;
                salt = salt;
                hashed = hashed;
                registered = create_user_tx-ok _ _ _ hash _ e;
              })
            (within_tx-TxOutcome _ _)

  -- Whatever the input, the state and the answers of the database, CreateUser either registers one
  -- user together with the event that announces it and returns that user; or fails and leaves every
  -- table as it was; or fails with both of them written when the last answer that it took was lost: a
  -- call took effect and its reply did not arrive.
  pub create_user_atomic :
      (s : Service) (request : CreateUserInput) (w : World)
      → AllOrNothing (Accepted request) w (create_user x s request w)
  unfolding create_user ◌>>=◌ pure fail
  create_user_atomic s request w = elim (Bool-cases s.has_tx_factory) [
    | inr absent ↦ rw absent (failed _ refl refl)
    | inl set ↦ rw set (elim (Option-cases validation) [
      | inr (e, invalid) ↦ rw (invalid, ◌>>=◌) (failed e refl refl)
      | inl valid ↦ rw (valid, ◌>>=◌) (create_valid request valid w)
    ])
  ]
    where
      validation : Option Error
      validation =
          validate_user_input x (trim_space request.name) (normal_email x request.email) request.age

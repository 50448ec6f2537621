-- ===== src/Consistency/Operations.antt =====
-- The operations of the service as requests, and every sequence of them.
use go_identity_service.Base.{ℤ, Text, Option, none, some, List, [], ◌∷◌}
use go_identity_service.Apperror.{Error}
use go_identity_service.External.{External}
use go_identity_service.World.{World, M, ◌>>=◌, pure}
use go_identity_service.World.Preserves.{Preserves, preserves_rules}
use go_identity_service.User.Model.{User}
use go_identity_service.User.Service as Users
use go_identity_service.User.Service.{
  CreateUserInput, UpdateUserInput, CreateUserWithProfileInput, require_nil,
  marshal_user_registered, create_outbox_event, create_user_tx, create_user_with_profile_tx,
  cache_get, cache_set, cache_delete, fetch_and_cache, get_or_fetch, check_email_free,
}
use go_identity_service.User.Listing
use go_identity_service.User.Listing.{ListUsersFilter, list, count_users, select_page}
use go_identity_service.Auth.Model.{RefreshToken}
use go_identity_service.Auth.Service as Sessions
use go_identity_service.Auth.Service.{
  RegisterRequest, LoginRequest, issue_token_pair, register_tx, refresh_active, refresh_tx,
  logout_found,
}
use go_identity_service.Consistency.{IsConsistent}
use go_identity_service.Consistency.Steps.{consistent_steps}

pub data Request : Type 0 where
  create_user : CreateUserInput → Request
  create_user_with_profile : CreateUserWithProfileInput → Request
  get_user : ℤ → Request
  get_user_by_email : Text → Request
  list_users : ListUsersFilter → Request
  update_user : ℤ → UpdateUserInput → Request
  delete_user : ℤ → Request
  register : RegisterRequest → Request
  login : LoginRequest → Request
  refresh : Text → Request
  logout : Text → Request
  me : ℤ → Request

abbrev ignore : {A : Type 0} → M A → M (Unit {0})
ignore m = do _ ← m; pure tt

module _ (x : External) (users : Users.Service) (sessions : Sessions.Service) where
  abbrev pub perform : Request → M (Unit {0})
  perform (create_user input) = ignore (Users.create_user x users input)
  perform (create_user_with_profile input) = ignore (Users.create_user_with_profile x users input)
  perform (get_user id) = ignore (Users.get_user x users id)
  perform (get_user_by_email email) = ignore (Users.get_user_by_email x email)
  perform (list_users filter) = ignore (Listing.list_users x filter)
  perform (update_user id input) = ignore (Users.update_user x users id input)
  perform (delete_user id) = Users.delete_user x users id
  perform (register req) = ignore (Sessions.register x sessions req)
  perform (login req) = ignore (Sessions.login x sessions req)
  perform (refresh token) = ignore (Sessions.refresh x sessions token)
  perform (logout token) = Sessions.logout x sessions token
  perform (me id) = ignore (Sessions.me x sessions id)

  require_nil-IsConsistent : (o : Option Error) → Preserves IsConsistent (require_nil o)
  require_nil-IsConsistent none = search consistent_steps depth 30
  require_nil-IsConsistent (some e) = search consistent_steps depth 30

  outbox_event-IsConsistent : (u : User) → Preserves IsConsistent (create_outbox_event x u)
  unfolding create_outbox_event marshal_user_registered
  outbox_event-IsConsistent u = search consistent_steps depth 40

  create_user-IsConsistent :
      (input : CreateUserInput) → Preserves IsConsistent (Users.create_user x users input)
  unfolding Users.create_user create_user_tx
  create_user-IsConsistent input =
      search (consistent_steps, require_nil-IsConsistent, outbox_event-IsConsistent) depth 40

  create_user_with_profile-IsConsistent :
      (input : CreateUserWithProfileInput)
      → Preserves IsConsistent (Users.create_user_with_profile x users input)
  unfolding Users.create_user_with_profile create_user_with_profile_tx
  create_user_with_profile-IsConsistent input =
      search (consistent_steps, require_nil-IsConsistent, outbox_event-IsConsistent) depth 40

  cache_get-IsConsistent :
      (o : Option Users.CacheConfig) (id : ℤ) → Preserves IsConsistent (cache_get x o id)
  unfolding cache_get
  cache_get-IsConsistent none id = search consistent_steps depth 30
  cache_get-IsConsistent (some c) id = search consistent_steps depth 30

  cache_set-IsConsistent :
      (o : Option Users.CacheConfig) (u : User) → Preserves IsConsistent (cache_set x o u)
  unfolding cache_set
  cache_set-IsConsistent none u = search consistent_steps depth 30
  cache_set-IsConsistent (some c) u = search consistent_steps depth 30

  cache_delete-IsConsistent :
      (o : Option Users.CacheConfig) (id : ℤ) → Preserves IsConsistent (cache_delete x o id)
  unfolding cache_delete
  cache_delete-IsConsistent none id = search consistent_steps depth 30
  cache_delete-IsConsistent (some c) id = search consistent_steps depth 30

  get_or_fetch-IsConsistent :
      (id : ℤ) (o : Option User) → Preserves IsConsistent (get_or_fetch x users id o)
  unfolding get_or_fetch fetch_and_cache
  get_or_fetch-IsConsistent id none = search (consistent_steps, cache_set-IsConsistent) depth 30
  get_or_fetch-IsConsistent id (some u) = search consistent_steps depth 30

  get_user-IsConsistent : (id : ℤ) → Preserves IsConsistent (Users.get_user x users id)
  unfolding Users.get_user
  get_user-IsConsistent id =
      search (consistent_steps, cache_get-IsConsistent, get_or_fetch-IsConsistent) depth 30

  get_user_by_email-IsConsistent :
      (email : Text) → Preserves IsConsistent (Users.get_user_by_email x email)
  unfolding Users.get_user_by_email
  get_user_by_email-IsConsistent email = search consistent_steps depth 30

  count_users-IsConsistent : (email : Text) → Preserves IsConsistent (count_users x email)
  unfolding count_users
  count_users-IsConsistent email = record { at = λ w h. h }

  select_page-IsConsistent :
      (f : ListUsersFilter) (email : Text) → Preserves IsConsistent (select_page x f email)
  unfolding select_page
  select_page-IsConsistent f email = record { at = λ w h. h }

  list_users-IsConsistent : (f : ListUsersFilter) → Preserves IsConsistent (Listing.list_users x f)
  unfolding Listing.list_users list
  list_users-IsConsistent f =
      search (consistent_steps, count_users-IsConsistent, select_page-IsConsistent) depth 30

  check_email_free-IsConsistent :
      (old email : Text) → Preserves IsConsistent (check_email_free x old email)
  unfolding check_email_free
  check_email_free-IsConsistent old email = search consistent_steps depth 30

  update_user-IsConsistent :
      (id : ℤ) (input : UpdateUserInput)
      → Preserves IsConsistent (Users.update_user x users id input)
  unfolding Users.update_user
  update_user-IsConsistent id input =
      search
        (
          consistent_steps, require_nil-IsConsistent, check_email_free-IsConsistent,
          cache_delete-IsConsistent,
        )
        depth 40

  delete_user-IsConsistent : (id : ℤ) → Preserves IsConsistent (Users.delete_user x users id)
  unfolding Users.delete_user
  delete_user-IsConsistent id = search (consistent_steps, cache_delete-IsConsistent) depth 30

  issue_token_pair-IsConsistent :
      (u : User) → Preserves IsConsistent (issue_token_pair x sessions u)
  unfolding issue_token_pair
  issue_token_pair-IsConsistent u = search consistent_steps depth 40

  register-IsConsistent :
      (req : RegisterRequest) → Preserves IsConsistent (Sessions.register x sessions req)
  unfolding Sessions.register register_tx marshal_user_registered
  register-IsConsistent req = search (consistent_steps, issue_token_pair-IsConsistent) depth 40

  login-IsConsistent : (req : LoginRequest) → Preserves IsConsistent (Sessions.login x sessions req)
  unfolding Sessions.login
  login-IsConsistent req = search (consistent_steps, issue_token_pair-IsConsistent) depth 40

  refresh-IsConsistent : (token : Text) → Preserves IsConsistent (Sessions.refresh x sessions token)
  unfolding Sessions.refresh refresh_tx refresh_active
  refresh-IsConsistent token = search (consistent_steps, issue_token_pair-IsConsistent) depth 40

  logout_found-IsConsistent :
      (o : Option RefreshToken) → Preserves IsConsistent (logout_found x sessions o)
  unfolding logout_found
  logout_found-IsConsistent none = search consistent_steps depth 30
  logout_found-IsConsistent (some stored) = search consistent_steps depth 30

  logout-IsConsistent : (token : Text) → Preserves IsConsistent (Sessions.logout x sessions token)
  unfolding Sessions.logout
  logout-IsConsistent token = search (consistent_steps, logout_found-IsConsistent) depth 40

  me-IsConsistent : (id : ℤ) → Preserves IsConsistent (Sessions.me x sessions id)
  unfolding Sessions.me
  me-IsConsistent id = search consistent_steps depth 30

  perform-IsConsistent : (r : Request) → Preserves IsConsistent (perform r)
  perform-IsConsistent (create_user i) = search (preserves_rules, create_user-IsConsistent) depth 10
  perform-IsConsistent (create_user_with_profile i) =
      search (preserves_rules, create_user_with_profile-IsConsistent) depth 10
  perform-IsConsistent (get_user id) = search (preserves_rules, get_user-IsConsistent) depth 10
  perform-IsConsistent (get_user_by_email e) =
      search (preserves_rules, get_user_by_email-IsConsistent) depth 10
  perform-IsConsistent (list_users f) = search (preserves_rules, list_users-IsConsistent) depth 10
  perform-IsConsistent (update_user id i) =
      search (preserves_rules, update_user-IsConsistent) depth 10
  perform-IsConsistent (delete_user id) = delete_user-IsConsistent id
  perform-IsConsistent (register r) = search (preserves_rules, register-IsConsistent) depth 10
  perform-IsConsistent (login r) = search (preserves_rules, login-IsConsistent) depth 10
  perform-IsConsistent (refresh t) = search (preserves_rules, refresh-IsConsistent) depth 10
  perform-IsConsistent (logout t) = logout-IsConsistent t
  perform-IsConsistent (me id) = search (preserves_rules, me-IsConsistent) depth 10

  -- One request after the other, whether they succeed or fail.
  abbrev pub run : List Request → World → World
  run [] w = w
  run (r ∷ rs) w = run rs (perform r w).1

  -- From consistent tables, every sequence of requests leads to consistent tables, whatever the
  -- database and the cache answer and whichever of the requests fail: no address stands under two ids,
  -- each user has a role that exists, each profile and each refresh token belongs to a user, and no
  -- hash of a token stands under two ids.
  pub run-IsConsistent :
      (rs : List Request) (w : World) → IsConsistent w.tables → IsConsistent (run rs w).tables
  run-IsConsistent [] w h = h
  run-IsConsistent (r ∷ rs) w h =
      run-IsConsistent rs (perform r w).1 ((perform-IsConsistent r).at w h)

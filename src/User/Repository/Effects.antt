-- ===== src/User/Repository/Effects.antt =====
-- What the methods of the user repository wrote, when they returned; and which write nothing.
use go_identity_service.Base.{
  suc, ℤ, pos, Text, ◌≡◌, Bool, false, Option, none, some, List, [], ◌∷◌, ◌++◌, any, find?, map,
  arith,
}
use go_identity_service.Apperror.{ok}
use go_identity_service.World.{World, Tables, Answer, sql_now}
use go_identity_service.World.Rules.{map_err-ok, call-ok}
use go_identity_service.User.Model.{User, Profile}
use go_identity_service.User.Repository.{
  has_email, has_id, without_hash, insert_user, with_default_role, create, select_exists,
  exists_by_email, insert_profile, create_profile, row, select_by_id, select_by_email, find_by_id,
  find_by_email,
}

-- The row that Create inserts.
abbrev pub user_row : User → World → User
user_row u w = record (with_default_role u) {
  id = pos w.sequences.user_id;
  created_at = sql_now w;
  updated_at = sql_now w;
}

abbrev pub with_user : Tables → User → Tables
with_user t u = record t { users = t.users ++ u ∷ [] }

pub record Created (u : User) (w : World) (c : User) (w' : World) : Type 0 where
  pub free : any (has_email u.email) w.tables.users ≡ false
  pub returned : c ≡ without_hash (user_row u w)
  pub tables : w'.tables ≡ with_user w.tables (user_row u w)
  pub clock : w'.clock ≡ w.clock
  pub started : w'.tx_started ≡ w.tx_started
  pub next_id : w'.sequences.user_id ≡ suc w.sequences.user_id

insert_user-ok :
    (u : User) (w : World) {c : User} {w' : World}
    → insert_user (with_default_role u) w ≡ (ok c, w')
    → Created u w c w'
unfolding insert_user
insert_user-ok u w h = ground (arith)

pub create-ok :
    (u : User) (w : World) {c : User} {w' : World} → create u w ≡ (ok c, w') → Created u w c w'
unfolding create
create-ok u w h =
    let (rest, e) = call-ok (insert_user (with_default_role u)) w (map_err-ok _ _ w h) in
    let k = insert_user-ok u (record w { answers = rest }) e in
    record {
      free = k.free;
      returned = k.returned;
      tables = k.tables;
      clock = k.clock;
      started = k.started;
      next_id = k.next_id;
    }

pub exists_by_email-ok :
    (email : Text) (w : World) {b : Bool} {w' : World}
    → exists_by_email email w ≡ (ok b, w')
    → (rest : List Answer) × (w' ≡ record w { answers = rest })
      × (b ≡ any (has_email email) w.tables.users)
unfolding exists_by_email
exists_by_email-ok email w h =
    let (rest, e) = call-ok (select_exists email) w (map_err-ok _ _ w h) in
    (rest, unfold select_exists in ground arith, unfold select_exists in ground arith)

row-ok :
    {A : Type 0} (o : Option A) (w : World) {a : A} {w' : World}
    → row o w ≡ (ok a, w')
    → (o ≡ some a) × (w' ≡ w)
row-ok none w h = cc
row-ok (some a) w h = ground arith

pub find_by_id-ok :
    (id : ℤ) (w : World) {u : User} {w' : World}
    → find_by_id id w ≡ (ok u, w')
    → (rest : List Answer) × (w' ≡ record w { answers = rest })
      × (find? (has_id id) (map without_hash w.tables.users) ≡ some u)
unfolding find_by_id
find_by_id-ok id w h =
    let (rest, e) = call-ok (select_by_id id) w (map_err-ok _ _ w h) in
    let (p, q) = row-ok _ _ (unfold select_by_id in e) in (rest, q, p)

pub find_by_email-ok :
    (email : Text) (w : World) {u : User} {w' : World}
    → find_by_email email w ≡ (ok u, w')
    → (rest : List Answer) × (w' ≡ record w { answers = rest })
      × (find? (has_email email) w.tables.users ≡ some u)
unfolding find_by_email
find_by_email-ok email w h =
    let (rest, e) = call-ok (select_by_email email) w (map_err-ok _ _ w h) in
    let (p, q) = row-ok _ _ (unfold select_by_email in e) in (rest, q, p)

-- The row that CreateProfile inserts.
abbrev pub profile_row : Profile → World → Profile
profile_row p w = record p {
  id = pos w.sequences.profile_id;
  created_at = sql_now w;
  updated_at = sql_now w;
}

pub record ProfileCreated (p : Profile) (w : World) (c : Profile) (w' : World) : Type 0 where
  pub returned : c ≡ profile_row p w
  pub tables :
      w'.tables ≡ record w.tables { user_profiles = w.tables.user_profiles ++ profile_row p w ∷ [] }
  pub clock : w'.clock ≡ w.clock
  pub started : w'.tx_started ≡ w.tx_started

insert_profile-ok :
    (p : Profile) (w : World) {c : Profile} {w' : World}
    → insert_profile p w ≡ (ok c, w')
    → ProfileCreated p w c w'
unfolding insert_profile
insert_profile-ok p w h = ground arith

pub create_profile-ok :
    (p : Profile) (w : World) {c : Profile} {w' : World}
    → create_profile p w ≡ (ok c, w')
    → ProfileCreated p w c w'
unfolding create_profile
create_profile-ok p w h =
    let (rest, e) = call-ok (insert_profile p) w (map_err-ok _ _ w h) in
    let k = insert_profile-ok p (record w { answers = rest }) e in
    record { returned = k.returned; tables = k.tables; clock = k.clock; started = k.started }

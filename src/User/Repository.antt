-- ===== src/User/Repository.antt =====
-- internal/user/postgres_repository.go: the SQL of each method over the tables of migrations/001 to
-- 004, and the errors that the method makes of the database's.
pub mod Effects
use go_identity_service.Base.{
  ℕ, suc, ℤ, pos, int_eq, Text, text_eq, codes, String, Bool, true, false, not, ◌&&◌, str_eq,
  Option, none, some, List, [], ◌∷◌, ◌++◌, map, any, find?, update_where, delete_where,
  if◌then◌else◌,
}
use go_identity_service.Apperror.{
  Error, sentinel, pg_error, wrapped, no_rows, user_not_found, email_already_exists, errors_is,
  as_pg, Result, ok, err,
}
use go_identity_service.World.{World, Tables, M, ◌>>=◌, pure, fail, on_err, map_err, call, sql_now}
use go_identity_service.User.Model.{User, Profile, Role, role_user, role_is_valid}

abbrev unique_violation : String
unique_violation = "23505"

abbrev check_violation : String
check_violation = "23514"

abbrev foreign_key_violation : String
foreign_key_violation = "23503"

unfoldable pub has_email : Text → User → Bool
has_email email u = text_eq u.email email

unfoldable pub has_id : ℤ → User → Bool
has_id id u = int_eq u.id id

-- The columns that all queries but FindByEmail return.
unfoldable pub without_hash : User → User
without_hash u = record u { password_hash = [] }

-- A row, or pgx.ErrNoRows.
abbrev pub row : {A : Type 0} → Option A → World → Result A × World
row none w = (err (sentinel no_rows), w)
row (some a) w = (ok a, w)

-- isUniqueViolation
unfoldable pub is_unique_violation : Error → Bool
is_unique_violation e = elim (as_pg e) [ none ↦ false | some c ↦ str_eq c unique_violation ]

unfoldable pub insert_user : User → M User
unfolding role_is_valid has_email without_hash
insert_user u w =
    let id = w.sequences.user_id in
    let w' : World = record w { sequences = record w.sequences { user_id = suc id } } in
    let created : User = record u { id = pos id; created_at = sql_now w; updated_at = sql_now w } in
    if not (role_is_valid u.role)
    then (err (pg_error check_violation), w')
    else if any (has_email u.email) w.tables.users
    then (err (pg_error unique_violation), w')
    else (
      ok (without_hash created),
      record w' { tables = record w.tables { users = w.tables.users ++ created ∷ [] } },
    )

abbrev pub with_default_role : User → User
with_default_role u = record u { role = if str_eq u.role "" then role_user else u.role }

unfoldable pub create : User → M User
unfolding insert_user is_unique_violation as_pg
create u =
    map_err
      (λ e.
        if is_unique_violation e then sentinel email_already_exists else wrapped "insert user" e)
      (call (insert_user (with_default_role u)))

-- What FindByID and FindByEmail make of an error.
abbrev not_found_or : String → Error → Error
not_found_or what e = if errors_is e no_rows then sentinel user_not_found else wrapped what e

unfoldable pub select_by_id : ℤ → M User
unfolding has_id without_hash
select_by_id id w = row (find? (has_id id) (map without_hash w.tables.users)) w

unfoldable pub find_by_id : ℤ → M User
unfolding select_by_id errors_is
find_by_id id = map_err (not_found_or "select user by id") (call (select_by_id id))

unfoldable pub select_by_email : Text → M User
unfolding has_email
select_by_email email w = row (find? (has_email email) w.tables.users) w

unfoldable pub find_by_email : Text → M User
unfolding select_by_email errors_is
find_by_email email = map_err (not_found_or "select user by email") (call (select_by_email email))

unfoldable pub select_exists : Text → M Bool
unfolding has_email
select_exists email w = (ok (any (has_email email) w.tables.users), w)

unfoldable pub exists_by_email : Text → M Bool
unfolding select_exists
exists_by_email email = map_err (wrapped "check user exists by email") (call (select_exists email))

-- select ... from users order by id: `users` is kept in the order of insertion, which is that of id.
select_all : M (List User)
unfolding without_hash
select_all w = (ok (map without_hash w.tables.users), w)

unfoldable pub find_all : M (List User)
unfolding select_all
find_all = map_err (wrapped "select all users") (call select_all)

abbrev pub set_columns : User → ℕ → User → User
set_columns u now old = record old { name = u.name; email = u.email; age = u.age; updated_at = now }

-- The UPDATE of the row found.
abbrev pub write_row : User → Option User → M User
write_row u none w = (err (sentinel no_rows), w)
write_row u (some old) w =
    if any (λ o. not (has_id u.id o) && has_email u.email o) w.tables.users
    then (err (pg_error unique_violation), w)
    else (
      ok (without_hash (set_columns u (sql_now w) old)),
      record w {
        tables = record w.tables {
          users = update_where (has_id u.id) (set_columns u (sql_now w)) w.tables.users;
        };
      },
    )

unfoldable pub update_user : User → M User
unfolding has_id has_email without_hash
update_user u w = write_row u (find? (has_id u.id) w.tables.users) w

unfoldable pub update : User → M User
unfolding update_user is_unique_violation as_pg errors_is
update u =
    map_err
      (λ e.
        if errors_is e no_rows
        then sentinel user_not_found
        else if is_unique_violation e
        then sentinel email_already_exists
        else wrapped "update user" e)
      (call (update_user u))

-- DELETE cascades to user_profiles and refresh_tokens; the result is RowsAffected.
unfoldable pub delete_user : ℤ → M Bool
unfolding has_id
delete_user id w =
    let t = w.tables in
    (
      ok (any (has_id id) t.users),
      record w {
        tables = record t {
          users = delete_where (has_id id) t.users;
          user_profiles = delete_where (λ p. int_eq p.user_id id) t.user_profiles;
          refresh_tokens = delete_where (λ r. int_eq r.user_id id) t.refresh_tokens;
        };
      },
    )

unfoldable pub delete : ℤ → M (Unit {0})
unfolding delete_user
delete id = do
  affected ← map_err (wrapped "delete user") (call (delete_user id))
  if affected then pure tt else fail (sentinel user_not_found)

unfoldable pub insert_profile : Profile → M Profile
unfolding has_id
insert_profile p w =
    let id = w.sequences.profile_id in
    let w' : World = record w { sequences = record w.sequences { profile_id = suc id } } in
    let created : Profile = record p {
      id = pos id;
      created_at = sql_now w;
      updated_at = sql_now w;
    } in
    if any (λ q. int_eq q.user_id p.user_id) w.tables.user_profiles
    then (err (pg_error unique_violation), w')
    else if not (any (has_id p.user_id) w.tables.users)
    then (err (pg_error foreign_key_violation), w')
    else (
      ok created,
      record w' {
        tables = record w.tables { user_profiles = w.tables.user_profiles ++ created ∷ [] };
      },
    )

unfoldable pub create_profile : Profile → M Profile
unfolding insert_profile
create_profile p = map_err (wrapped "insert user profile") (call (insert_profile p))

-- usersOrderBy
unfoldable pub users_order_by : Text → String
users_order_by sort =
    if text_eq sort (codes "id_asc")
    then "id ASC"
    else if text_eq sort (codes "id_desc")
    then "id DESC"
    else if text_eq sort (codes "email_asc")
    then "email ASC"
    else if text_eq sort (codes "email_desc")
    then "email DESC"
    else if text_eq sort (codes "created_at_asc")
    then "created_at ASC"
    else if text_eq sort (codes "created_at_desc")
    then "created_at DESC"
    else "id ASC"

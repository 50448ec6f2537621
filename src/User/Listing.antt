-- ===== src/User/Listing.antt =====
-- ListUsers of internal/user/service.go and List of internal/user/postgres_repository.go.
pub mod Pages
pub mod Walks
use go_identity_service.Base.{
  ℕ, suc, ◌+◌, ℤ, pos, negsuc, int_leb, Text, codes, is_empty, trim_space, str_eq, String, Bool,
  true, false, ◌||◌, leb, List, [], ◌∷◌, ◌++◌, map, length, filter, take, drop, sort_with,
  if◌then◌else◌,
}
use go_identity_service.Apperror.{Error, pg_error, wrapped, Result, ok, err}
use go_identity_service.External.{External}
use go_identity_service.World.{World, M, ◌>>=◌, pure, map_err, on_err, fail, call}
use go_identity_service.User.Model.{User}
use go_identity_service.User.Repository.{users_order_by, without_hash}
use go_identity_service.User.Validation.{normal_email}

pub record ListUsersFilter : Type 0 where
  pub limit : ℤ
  pub offset : ℤ
  pub email : Text
  pub sort : Text

pub record ListUsersResult : Type 0 where
  pub users : List User
  pub total : ℕ

-- The order that an ORDER BY of usersOrderBy asks for.
abbrev pub ordered_by : (Text → Text → Bool) → String → User → User → Bool
ordered_by collate clause a b =
    if str_eq clause "id ASC"
    then int_leb a.id b.id
    else if str_eq clause "id DESC"
    then int_leb b.id a.id
    else if str_eq clause "email ASC"
    then collate a.email b.email
    else if str_eq clause "email DESC"
    then collate b.email a.email
    else if str_eq clause "created_at ASC"
    then leb a.created_at b.created_at
    else leb b.created_at a.created_at

-- LIMIT and OFFSET; the server reports a negative one while the rows are read.
abbrev pub slice : ℤ → ℤ → List User → Result (List User)
slice (negsuc n) offset users = err (wrapped "iterate user rows" (pg_error "2201W"))
slice (pos n) (negsuc k) users = err (wrapped "iterate user rows" (pg_error "2201X"))
slice (pos n) (pos k) users = ok (map without_hash (take n (drop k users)))

module _ (x : External) where
  -- $1 = '' or email ilike '%' || $1 || '%'
  unfoldable pub matches : Text → User → Bool
  matches email u = is_empty email || x.ilike u.email (codes "%" ++ email ++ codes "%")

  -- select count(*)
  unfoldable pub count_users : Text → M ℕ
  count_users email w = (ok (length (filter (matches email) w.tables.users)), w)

  -- The rows that match, in order. Those which the order does not tell apart come as the query finds
  -- them, and another query may find them in another order.
  unfoldable pub listing : ℕ → Text → String → List User → List User
  listing scan email clause users =
      sort_with (ordered_by x.collate_leb clause)
        (sort_with (λ a b. leb (x.rank scan a) (x.rank scan b)) (filter (matches email) users))

  unfoldable pub select_page : ListUsersFilter → Text → M (List User)
  select_page f email w = (
    slice f.limit f.offset (listing w.scans email (users_order_by f.sort) w.tables.users),
    record w { scans = suc w.scans },
  )

  unfoldable pub list : ListUsersFilter → M ListUsersResult
  list f = do
    let email = trim_space f.email
    total ← map_err (wrapped "count users") (call (count_users email))
    users ← call (select_page f email)
    pure (record { users = users; total = total })

  -- Service.ListUsers
  unfoldable pub list_users : ListUsersFilter → M ListUsersResult
  list_users input =
      map_err (wrapped "list users") (list (record input { email = normal_email x input.email }))

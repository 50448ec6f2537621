-- ===== src/Grpc/Users/Listing.antt =====
-- ListUsers of the gRPC API: who may list, and how much is given at once.
use go_identity_service.Base.{
  ℕ, ◌≤◌, ℤ, pos, int_ltb, Text, str_eq, str_eq_iff, ◌≡◌, refl, Bool, true, false, ◌||◌, any,
  Option, none, some, [], ◌∷◌, length, length-map, arith, if◌then◌else◌, Bool-cases, inl, inr,
}
use go_identity_service.Apperror.{Result, ok, err}
use go_identity_service.External.{External}
use go_identity_service.World.{World, M, ◌>>=◌, pure, attempt}
use go_identity_service.World.Rules.{pure-ok, pair_path}
use go_identity_service.User.Model.{role_admin}
use go_identity_service.User.Listing.{ListUsersFilter, ListUsersResult, list_users}
use go_identity_service.User.Listing.Pages.{IsPage, list_users-IsPage}
use go_identity_service.Auth.Model.{Principal}
use go_identity_service.Grpc.Status.{
  Status, status_error, invalid_argument, Reply, replied, failed_with,
}
use go_identity_service.Grpc.Authz.{require_role}
use go_identity_service.Grpc.Users.{
  ListUsersResponse, list_users_reply, list_allowed, unless_denied, reply_with, list_response,
  invalid, limit_or_default, user_to_proto,
}

not_replied :
    {A : Type 0} (s : Status) (w : World) {a : A} {w' : World}
    → pure (failed_with s) w ≡ (ok (replied a), w')
    → ⊥
not_replied s w h = let (p, q) = pure-ok _ w h in cc

-- A guard of the gRPC API that let a request pass.
passed :
    {A : Type 0} (o : Option Status) (next : M (Reply A)) (w : World) {a : A} {w' : World}
    → unless_denied o next w ≡ (ok (replied a), w')
    → (o ≡ none) × (next w ≡ (ok (replied a), w'))
passed none next w h = (refl, h)
passed (some s) next w h = absurd (not_replied s w h)

if_valid :
    {A : Type 0} (b : Bool) (s : Status) (next : M (Reply A)) (w : World) {a : A} {w' : World}
    → (if b then pure (failed_with s) else next) w ≡ (ok (replied a), w')
    → (b ≡ false) × (next w ≡ (ok (replied a), w'))
if_valid true s next w h = absurd (not_replied s w h)
if_valid false s next w h = (refl, h)

is_admin :
    (context : Option Principal)
    → require_role context (role_admin ∷ []) ≡ none
    → (p : Principal) × (context ≡ some p) × (p.role ≡ role_admin)
unfolding require_role any
is_admin none h = cc
is_admin (some p) h = elim (Bool-cases (str_eq p.role role_admin)) [
  | inl held ↦ (p, refl, (str_eq_iff _ _).0 held)
  | inr miss ↦ absurd (not_none (rw miss at h))
]
  where
    not_none : {s : Status} → some s ≡ none → ⊥
    not_none h = cc

module _ (x : External)
    (collate_total : (a b : Text) → x.collate_leb a b ≡ false → x.collate_leb b a ≡ true) where
  -- What ListUsers gives: a page of at most 100 of the users that the request asks for.
  pub record Listed (req : ListUsersFilter) (w : World) (r : ListUsersResponse) : Type 0 where
    pub page : ListUsersResult
    pub is_page : IsPage x (record req { limit = limit_or_default req.limit }) w.tables page
    pub gives : r ≡ list_response page
    pub bounded : length r.users ≤ 100

  replied_page :
      (req : ListUsersFilter) (limit : ℤ) (o : Result ListUsersResult) (v : World)
      {r : ListUsersResponse} {w' : World}
      → reply_with list_response o v ≡ (ok (replied r), w')
      → (page : ListUsersResult) × (o ≡ ok page) × (r ≡ list_response page)
  unfolding pure
  replied_page req limit (ok page) v h = (page, refl, ground arith)
  replied_page req limit (err e) v h = cc

  short : (n : ℕ) (limit : ℤ) → limit ≡ pos n → int_ltb (pos 100) limit ≡ false → n ≤ 100
  short n limit p h = ground (arith, rw p at h)

  above : (a b : Bool) → (a || b) ≡ false → b ≡ false
  above a b h = ground (arith, h)

  -- When ListUsers replies with users, the caller is an administrator, and the reply is a page of at
  -- most 100 of the users that the request asks for, 20 for a limit of 0. The database's collation is
  -- taken to be total.
  pub list_users_reply-Listed :
      (context : Option Principal) (req : ListUsersFilter) (w : World) {r : ListUsersResponse}
      {w' : World}
      → list_users_reply x context req w ≡ (ok (replied r), w')
      → (p : Principal) × (context ≡ some p) × (p.role ≡ role_admin) × Listed req w r
  unfolding list_users_reply ◌>>=◌ attempt
  list_users_reply-Listed context req w {r} h =
      let (allowed, h1) =
        passed (require_role context (role_admin ∷ [])) (list_allowed x req) w h in
      let asked : ListUsersFilter = record req { limit = limit_or_default req.limit } in
      let read : M (Reply ListUsersResponse) =
        attempt (list_users x asked) >>= reply_with list_response in
      let from_offset : M (Reply ListUsersResponse) =
        if int_ltb req.offset (pos 0)
        then invalid "offset must be greater than or equal to 0"
        else read in
      let (in_range, h2) =
        if_valid (int_ltb asked.limit (pos 0) || int_ltb (pos 100) asked.limit)
          (status_error invalid_argument "limit must be between 1 and 100") from_offset w h1 in
      let (not_negative, h3) =
        if_valid (int_ltb req.offset (pos 0))
          (status_error invalid_argument "offset must be greater than or equal to 0") read w h2 in
      let (p, is_p, role) = is_admin context allowed in
      let (page, is_page, gives) =
        replied_page req asked.limit (list_users x asked w).0 (list_users x asked w).1 h3 in
      let (s, keeps) =
        list_users-IsPage x collate_total asked w (pair_path (list_users x asked w) is_page) in
      (
        p,
        is_p,
        role,
        record {
          page = page;
          is_page = s;
          gives = gives;
          bounded = rw gives (
              omega (
                arith,
                length-map user_to_proto page.users,
                s.bounded,
                short s.n asked.limit s.limit (above (int_ltb asked.limit (pos 0)) _ in_range),
              ));
        },
      )

-- ===== src/User/Listing/Walks.antt =====
-- A walk through the pages of ListUsers, where each query finds the rows in an order of its own.
use go_identity_service.Base.{
  ℕ, ◌+◌, ◌≤◌, ℤ, pos, negsuc, int_leb, leb, Text, String, str_eq, Bool, true, false, if◌then◌else◌,
  ◌≡◌, refl, sym, ap, subst, ◌∙◌, List, [], ◌++◌, map, Perm, length, take, drop, take-drop,
  take-all, sort_with, Perm-sort_with, length-sort_with, Separates, sort_with-sort_with, arith,
}
use mathlib.Core.List.{map-append}
use mathlib.Core.List.Perm
use go_identity_service.Apperror.{ok}
use go_identity_service.External.{External}
use go_identity_service.World.{World, Tables}
use go_identity_service.User.Model.{User}
use go_identity_service.User.Repository.{users_order_by, without_hash}
use go_identity_service.User.Listing.{
  ListUsersFilter, ListUsersResult, listing, list_users, ordered_by,
}
use go_identity_service.User.Listing.Pages.{wanted, in_order, list_users-Slice, ordered_by-total}

int_leb_transitive : (a b c : ℤ) → int_leb a b ≡ true → int_leb b c ≡ true → int_leb a c ≡ true
int_leb_transitive (pos a) (pos b) (pos c) p q = ground arith
int_leb_transitive (pos a) (pos b) (negsuc c) p q = cc
int_leb_transitive (pos a) (negsuc b) c p q = cc
int_leb_transitive (negsuc a) (pos b) (pos c) p q = refl
int_leb_transitive (negsuc a) (pos b) (negsuc c) p q = cc
int_leb_transitive (negsuc a) (negsuc b) (pos c) p q = refl
int_leb_transitive (negsuc a) (negsuc b) (negsuc c) p q = ground arith

leb_transitive : (a b c : ℕ) → leb a b ≡ true → leb b c ≡ true → leb a c ≡ true
leb_transitive a b c p q = ground arith

abbrev IsTransitive : (User → User → Bool) → Type 0
IsTransitive le = (a b c : User) → le a b ≡ true → le b c ≡ true → le a c ≡ true

if-IsTransitive :
    (b : Bool) (le le' : User → User → Bool)
    → IsTransitive le
    → IsTransitive le'
    → IsTransitive (λ u v. if b then le u v else le' u v)
if-IsTransitive true le le' t t' = t
if-IsTransitive false le le' t t' = t'

abbrev pub page_request : ℕ → ℕ → Text → Text → ListUsersFilter
page_request n k email sort = record { limit = pos n; offset = pos k; email = email; sort = sort }

module _ (x : External) where
  -- The order of a request tells users apart.
  abbrev pub Tells : Text → List User → Type 0
  Tells sort users = Separates (ordered_by x.collate_leb (users_order_by sort)) users

  -- The listing of the users in the order of the request.
  abbrev pub ranked : Text → Text → List User → List User
  ranked email sort users =
      sort_with (ordered_by x.collate_leb (users_order_by sort))
        (wanted x (page_request 0 0 email sort) users)

  -- A client's walk from the offset `k` through the next `c` places of the listing, page by page, and the
  -- users that it was given.
  pub data Walk (n : ℕ) (email sort : Text) : ℕ → ℕ → World → List User → World → Type 0 where
    done : {k : ℕ} {w : World} → Walk n email sort k 0 w [] w
    page :
        {k c : ℕ} {w w' w'' : World} {r : ListUsersResult} {us : List User}
        → list_users x (page_request n k email sort) w ≡ (ok r, w')
        → Walk n email sort (k + n) c w' us w''
        → Walk n email sort k (n + c) w (r.users ++ us) w''

module _ (x : External)
    (collate_total : (a b : Text) → x.collate_leb a b ≡ false → x.collate_leb b a ≡ true)
    (collate_transitive : (a b c : Text)
      → x.collate_leb a b ≡ true
      → x.collate_leb b c ≡ true
      → x.collate_leb a c ≡ true) where
  ordered_by-IsTransitive : (clause : String) → IsTransitive (ordered_by x.collate_leb clause)
  ordered_by-IsTransitive clause =
      if-IsTransitive (str_eq clause "id ASC") _ _ (λ a b c. int_leb_transitive a.id b.id c.id)
        (if-IsTransitive (str_eq clause "id DESC") _ _
          (λ a b c p q. int_leb_transitive c.id b.id a.id q p)
          (if-IsTransitive (str_eq clause "email ASC") _ _
            (λ a b c. collate_transitive a.email b.email c.email)
            (if-IsTransitive (str_eq clause "email DESC") _ _
              (λ a b c p q. collate_transitive c.email b.email a.email q p)
              (if-IsTransitive (str_eq clause "created_at ASC") _ _
                (λ a b c. leb_transitive a.created_at b.created_at c.created_at)
                (λ a b c p q. leb_transitive c.created_at b.created_at a.created_at q p)))))

  in_order-ranked :
      (scan n k : ℕ) (email sort : Text) (users : List User)
      → Tells x sort (wanted x (page_request 0 0 email sort) users)
      → in_order x scan (page_request n k email sort) users ≡ ranked x email sort users
  unfolding listing
  in_order-ranked scan n k email sort users apart =
      sort_with-sort_with _ (ordered_by-total x collate_total (users_order_by sort))
        (ordered_by-IsTransitive (users_order_by sort)) _ _ apart

  page_request-users :
      (n k : ℕ) (email sort : Text) (w : World) {r : ListUsersResult} {w' : World}
      → Tells x sort (wanted x (page_request 0 0 email sort) w.tables.users)
      → list_users x (page_request n k email sort) w ≡ (ok r, w')
      → (r.users ≡ map without_hash (take n (drop k (ranked x email sort w.tables.users))))
        × (w'.tables ≡ w.tables)
  page_request-users n k email sort w {r} apart h =
      let (s, keeps) = list_users-Slice x (page_request n k email sort) w h in
      let same_n : s.n ≡ n = ground (arith, s.limit) in
      let same_k : s.k ≡ k = ground (arith, s.offset) in
      (
        (rw (same_n, same_k) at s.users)
            ∙ ap (λ (l : List User). map without_hash (take n (drop k l)))
                (in_order-ranked s.scan n k email sort w.tables.users apart),
        keeps,
      )

  Walk-slice :
      {n : ℕ} {email sort : Text} {k c : ℕ} {w : World} {us : List User} {w' : World}
      → Tells x sort (wanted x (page_request 0 0 email sort) w.tables.users)
      → Walk x n email sort k c w us w'
      → us ≡ map without_hash (take c (drop k (ranked x email sort w.tables.users)))
  Walk-slice apart done = refl
  Walk-slice {n} {email} {sort} {k} {w = w} apart
        (page {c = c} {w' = w'} {r = r} {us = us} h rest) =
      let (users, keeps) = page_request-users n k email sort w apart h in
      let rows = ranked x email sort w.tables.users in
      let apart' =
        subst (λ (t : Tables). Tells x sort (wanted x (page_request 0 0 email sort) t.users))
          (sym keeps) apart in
      ap (λ (l : List User). l ++ us) users
      ∙ ap (λ (l : List User). map without_hash (take n (drop k rows)) ++ l)
          (Walk-slice apart' rest
            ∙ ap
                (λ (t : Tables).
                  map without_hash (take c (drop (k + n) (ranked x email sort t.users))))
                keeps)
      ∙ sym (map-append without_hash _ _)
      ∙ ap (map without_hash) (take-drop c n k rows)

  -- A walk through the pages from the first on that reaches as many places as users are wanted was given
  -- each of these users once, in the order of the request and without the password hash, whatever the
  -- size of the pages, whatever the database answers and in whatever order each query finds the rows:
  -- when every page succeeded, the database's collation is a total order of the texts up to ties, and the
  -- order that the request asks for tells the wanted users apart.
  pub pages_complete :
      (n : ℕ) (email sort : Text) (c : ℕ) (w : World) {us : List User} {w' : World}
      → Walk x n email sort 0 c w us w'
      → length (wanted x (page_request n 0 email sort) w.tables.users) ≤ c
      → Tells x sort (wanted x (page_request n 0 email sort) w.tables.users)
      → Perm us (map without_hash (wanted x (page_request n 0 email sort) w.tables.users))
        × (us ≡ map without_hash (ranked x email sort w.tables.users))
  unfolding drop
  pages_complete n email sort c w walk enough apart =
      let users = wanted x (page_request n 0 email sort) w.tables.users in
      let le = ordered_by x.collate_leb (users_order_by sort) in
      let all =
        Walk-slice apart walk
        ∙ ap (map without_hash)
            (take-all c (sort_with le users) (omega (arith, length-sort_with le users, enough))) in
      (
        subst (λ (l : List User). Perm l (map without_hash users)) (sym all)
            (Perm.map without_hash (Perm-sort_with le users)),
        all,
      )

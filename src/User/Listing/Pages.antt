-- ===== src/User/Listing/Pages.antt =====
-- The pages of ListUsers: what one holds.
use go_identity_service.Base.{
  ℕ, ◌≤◌, ℤ, pos, negsuc, int_leb, Text, trim_space, String, true, false, ◌≡◌, refl, sym, ap, subst,
  ◌∙◌, List, map, Perm, length, filter, take, drop, length-map-take, Perm-sort_with,
  sort_with-IsSorted, IsSorted, arith,
}
use mathlib.Core.List.Perm
use go_identity_service.Apperror.{ok}
use go_identity_service.External.{External}
use go_identity_service.World.{World, Tables, call}
use go_identity_service.World.Rules.{bind-ok, map_err-ok, pure-ok, call-ok}
use go_identity_service.User.Model.{User}
use go_identity_service.User.Repository.{users_order_by, without_hash}
use go_identity_service.User.Validation.{normal_email}
use go_identity_service.User.Listing.{
  ListUsersFilter, ListUsersResult, matches, count_users, listing, slice, select_page, list,
  list_users, ordered_by,
}

int_leb_total : (a b : ℤ) → int_leb a b ≡ false → int_leb b a ≡ true
int_leb_total (pos a) (pos b) h = ground arith
int_leb_total (negsuc a) (negsuc b) h = ground arith
int_leb_total (pos a) (negsuc b) h = refl
int_leb_total (negsuc a) (pos b) h = cc

slice-ok :
    (limit offset : ℤ) (users : List User) {us : List User}
    → slice limit offset users ≡ ok us
    → (n : ℕ) × (k : ℕ) × (limit ≡ pos n)
      × (offset ≡ pos k)
      × (us ≡ map without_hash (take n (drop k users)))
slice-ok (negsuc n) offset users h = cc
slice-ok (pos n) (negsuc k) users h = cc
slice-ok (pos n) (pos k) users h = (n, k, refl, refl, ground arith)

module _ (x : External) where
  -- The users whose address the ILIKE of the query matches.
  abbrev pub wanted : ListUsersFilter → List User → List User
  wanted input users = filter (matches x (trim_space (normal_email x input.email))) users

  abbrev pub in_order : ℕ → ListUsersFilter → List User → List User
  in_order scan input users =
      listing x scan (trim_space (normal_email x input.email)) (users_order_by input.sort) users

  pub record Slice (input : ListUsersFilter) (t : Tables) (r : ListUsersResult) : Type 0 where
    pub n : ℕ
    pub k : ℕ
    pub scan : ℕ
    pub limit : input.limit ≡ pos n
    pub offset : input.offset ≡ pos k
    pub users : r.users ≡ map without_hash (take n (drop k (in_order scan input t.users)))
    pub total : r.total ≡ length (wanted input t.users)

  count_users-ok :
      (email : Text) (w : World) {n : ℕ} {w' : World}
      → call (count_users x email) w ≡ (ok n, w')
      → (n ≡ length (filter (matches x email) w.tables.users)) × (w'.tables ≡ w.tables)
  unfolding count_users
  count_users-ok email w h = let (rest, e) = call-ok (count_users x email) w h in ground (arith, e)

  select_page-ok :
      (f : ListUsersFilter) (email : Text) (w : World) {us : List User} {w' : World}
      → call (select_page x f email) w ≡ (ok us, w')
      → (slice f.limit f.offset (listing x w.scans email (users_order_by f.sort) w.tables.users)
          ≡ ok us)
        × (w'.tables ≡ w.tables)
  unfolding select_page
  select_page-ok f email w h =
      let (rest, e) = call-ok (select_page x f email) w h in ground (arith, e)

  pub list_users-Slice :
      (input : ListUsersFilter) (w : World) {r : ListUsersResult} {w' : World}
      → list_users x input w ≡ (ok r, w')
      → Slice input w.tables r × (w'.tables ≡ w.tables)
  unfolding list_users list
  list_users-Slice input w h = bind-ok _ _ w (map_err-ok _ _ w h) λ total v p q.
      let (is_total, keeps) = count_users-ok _ w (map_err-ok _ _ w p) in
      bind-ok _ _ v q λ users v' p' q'.
        let (sliced, keeps') = select_page-ok _ _ v p' in
        let (is_r, is_w) = pure-ok _ v' q' in
        let (n, k, limit, offset, is_users) = slice-ok _ _ _ sliced in
        (
          record {
            n = n;
            k = k;
            scan = v.scans;
            limit = limit;
            offset = offset;
            users =
                ap (λ (y : ListUsersResult). y.users) (sym is_r)
                ∙ is_users
                ∙ ap
                    (λ (t : Tables).
                      map without_hash (take n (drop k (in_order v.scans input t.users))))
                    keeps;
            total = ap (λ (y : ListUsersResult). y.total) (sym is_r) ∙ is_total;
          },
          ap (λ (y : World). y.tables) (sym is_w) ∙ keeps' ∙ keeps,
        )

  -- What a page holds: `ordered` are the users that are wanted, in the order that is asked for.
  pub record IsPage (input : ListUsersFilter) (t : Tables) (r : ListUsersResult) : Type 0 where
    pub n : ℕ
    pub k : ℕ
    pub limit : input.limit ≡ pos n
    pub offset : input.offset ≡ pos k
    pub ordered : List User
    pub all : Perm ordered (wanted input t.users)
    pub sorted : IsSorted (ordered_by x.collate_leb (users_order_by input.sort)) ordered
    pub users : r.users ≡ map without_hash (take n (drop k ordered))
    pub bounded : length r.users ≤ n
    pub total : r.total ≡ length (wanted input t.users)

  module _
      (collate_total : (a b : Text) → x.collate_leb a b ≡ false → x.collate_leb b a ≡ true) where
    pub ordered_by-total :
        (clause : String) (a b : User)
        → ordered_by x.collate_leb clause a b ≡ false
        → ordered_by x.collate_leb clause b a ≡ true
    ordered_by-total clause a b h = ground (
      arith,
      int_leb_total a.id b.id,
      int_leb_total b.id a.id,
      collate_total a.email b.email,
      collate_total b.email a.email,
    )

    -- A listing that succeeds, whatever the database answers: neither the limit nor the offset was
    -- negative; the total is the number of the users whose address the ILIKE of the query matches, for
    -- the trimmed and normalised text of the request between two % (or all users, without a text); and
    -- the page is the slice that the limit and the offset cut out of these users in the requested order,
    -- with ties in some order, without their password hashes, which is at most as long as the limit. The
    -- database's collation is taken to be total.
    pub list_users-IsPage :
        (input : ListUsersFilter) (w : World) {r : ListUsersResult} {w' : World}
        → list_users x input w ≡ (ok r, w')
        → IsPage input w.tables r × (w'.tables ≡ w.tables)
    unfolding listing
    list_users-IsPage input w h =
        let (s, keeps) = list_users-Slice input w h in
        (
          record {
            n = s.n;
            k = s.k;
            limit = s.limit;
            offset = s.offset;
            ordered = in_order s.scan input w.tables.users;
            all = Perm.trans (Perm-sort_with _ _) (Perm-sort_with _ _);
            sorted = sort_with-IsSorted _ (ordered_by-total (users_order_by input.sort)) _;
            users = s.users;
            bounded =
                subst (λ (l : List User). length l ≤ s.n) (sym s.users)
                  (length-map-take without_hash s.n _);
            total = s.total;
          },
          keeps,
        )

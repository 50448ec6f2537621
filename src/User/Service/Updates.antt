-- ===== src/User/Service/Updates.antt =====
-- UpdateUser of internal/user/service.go: what it changes, and what it leaves.
use go_identity_service.Base.{
  ℕ, ℤ, pos, int_leb, Text, text_eq, trim_space, ◌≡◌, refl, sym, ap, ◌∙◌, subst, inl, inr, false,
  not, ◌&&◌, Bool-cases, any, Option, none, some, [], find?, update_where, arith,
}
use go_identity_service.Apperror.{Error, Result, ok}
use go_identity_service.External.{External}
use go_identity_service.World.{World, Tables, pure, sql_now}
use go_identity_service.World.Rules.{bind-ok, map_err-ok, pure-ok, fail-ok, unless-ok, call-ok}
use go_identity_service.World.Preserves.{Preserves, preserves_rules}
use go_identity_service.User.Model.{User}
use go_identity_service.User.Repository as Repository
use go_identity_service.User.Repository.{has_id, has_email, set_columns, write_row, without_hash}
use go_identity_service.User.Repository.Effects.{find_by_id-ok, exists_by_email-ok}
use go_identity_service.User.Validation.{validate_user_input, normal_email}
use go_identity_service.User.Service.{
  Service, UpdateUserInput, CacheConfig, new_user, require_nil, check_email_free, cache_delete,
  update_user,
}
use go_identity_service.User.Cache.Preserved.{delete_user-Preserves}

-- The columns that UPDATE writes, from the row with the id of the user.
abbrev columns : Text → Text → ℤ → ℤ → User
columns name email age id = record (new_user name email age []) { id = id }

-- The row `old` under the id of `u` has got the columns of `u`, and no other row has its address.
pub record Written (u : User) (t t' : Tables) (c : User) : Type 0 where
  pub old : User
  pub now : ℕ
  pub found : find? (has_id u.id) t.users ≡ some old
  pub free : any (λ o. not (has_id u.id o) && has_email u.email o) t.users ≡ false
  pub tables : t' ≡ record t { users = update_where (has_id u.id) (set_columns u now) t.users }
  pub returned : c ≡ without_hash (set_columns u now old)

moved :
    {u : User} {t t0 t' t1 : Tables} {c c1 : User}
    → Written u t t' c
    → t ≡ t0
    → t' ≡ t1
    → c ≡ c1
    → Written u t0 t1 c1
moved {u} {t} {t0} {t'} {t1} {c} {c1} written p q e =
    subst (λ (y : Tables). Written u y t1 c1) p
      (subst (λ (y : Tables). Written u t y c1) q
        (subst (λ (y : User). Written u t t' y) e written))

write_row-ok :
    (u : User) (o : Option User) (w : World) {c : User} {w' : World}
    → find? (has_id u.id) w.tables.users ≡ o
    → write_row u o w ≡ (ok c, w')
    → Written u w.tables w'.tables c
write_row-ok u none w p h = cc
write_row-ok u (some old) w {c} {w'} p h =
    elim (Bool-cases (any (λ o. not (has_id u.id o) && has_email u.email o) w.tables.users)) [
      | inl taken ↦ let k = rw taken at h in cc
      | inr free ↦
          let k = rw free at h in
          record {
            old = old;
            now = sql_now w;
            found = p;
            free = free;
            tables = ap (λ (y : Result User × World). y.1.tables) (sym k);
            returned = ground (arith, k);
          }
    ]

update-ok :
    (u : User) (w : World) {c : User} {w' : World}
    → Repository.update u w ≡ (ok c, w')
    → Written u w.tables w'.tables c
unfolding Repository.update Repository.update_user
update-ok u w h =
    let (rest, e) = call-ok (Repository.update_user u) w (map_err-ok _ _ w h) in
    write_row-ok u (find? (has_id u.id) w.tables.users) (record w { answers = rest }) refl e

cache_delete-tables :
    (x : External) (o : Option CacheConfig) (id : ℤ) (w : World)
    → (cache_delete x o id w).1.tables ≡ w.tables
unfolding cache_delete
cache_delete-tables x o id w = (deleted o).at w refl
  where
    deleted : (o : Option CacheConfig) → Preserves (λ t. t ≡ w.tables) (cache_delete x o id)
    deleted none = search preserves_rules depth 30
    deleted (some c) = search (preserves_rules, delete_user-Preserves) depth 30

check_email_free-ok :
    (x : External) (old email : Text) (w : World) {w' : World}
    → check_email_free x old email w ≡ (ok tt, w')
    → w'.tables ≡ w.tables
unfolding check_email_free
check_email_free-ok x old email w h = elim (Bool-cases (text_eq old email)) [
  | inl same ↦ ap (λ (y : World). y.tables) (sym (pure-ok tt w (rw same at h)).1)
  | inr other ↦ bind-ok _ _ w (rw other at h) λ exists v p q.
      let (rest, is_v, is_b) = exists_by_email-ok email w (map_err-ok _ _ w p) in
      let (free, q') = unless-ok exists _ (pure tt) v q in
      ap (λ (y : World). y.tables) (sym (pure-ok tt v q').1) ∙ ap (λ (y : World). y.tables) is_v
]

require_nil-ok :
    (o : Option Error) (w : World) {w' : World}
    → require_nil o w ≡ (ok tt, w')
    → (o ≡ none) × (w ≡ w')
require_nil-ok none w h = (refl, (pure-ok tt w h).1)
require_nil-ok (some e) w h = absurd (fail-ok e w h)

module _ (x : External) where
  -- What UpdateUser promises of a request that it accepted.
  pub record Updated (id : ℤ) (input : UpdateUserInput) (t t' : Tables) (u : User) : Type 0 where
    pub positive : int_leb id (pos 0) ≡ false
    pub valid :
        validate_user_input x (trim_space input.name) (normal_email x input.email) input.age ≡ none
    pub written :
        Written (columns (trim_space input.name) (normal_email x input.email) input.age id) t t' u

  -- An update that succeeds, whatever the database and the cache answer, was for a positive id and valid
  -- input; the user was in the tables, and nobody under another id had the new address; the user has the
  -- trimmed name, the normalised address and the age of the input and a new time of change, its role,
  -- password hash and time of creation are as they were, and so is all the rest of the tables; and the
  -- result is the user without the hash.
  pub update_user-Updated :
      (s : Service) (id : ℤ) (input : UpdateUserInput) (w : World) {u : User} {w' : World}
      → update_user x s id input w ≡ (ok u, w')
      → Updated id input w.tables w'.tables u
  unfolding update_user
  update_user-Updated s id input w {u} {w'} h =
      let (positive, h0) = unless-ok (int_leb id (pos 0)) _ _ w h in
      bind-ok _ _ w h0 λ checked v p q.
        let (valid, is_v) = require_nil-ok _ w p in
        bind-ok _ _ v q λ existing v1 p1 q1.
          let (rest, is_v1, found) = find_by_id-ok id v (map_err-ok _ _ v p1) in
          bind-ok _ _ v1 q1 λ free v2 p2 q2.
            let same2 = check_email_free-ok x _ _ v1 p2 in
            bind-ok _ _ v2 q2 λ updated v3 p3 q3.
              let written = update-ok _ v2 (map_err-ok _ _ v2 p3) in
              bind-ok _ _ v3 q3 λ deleted v4 p4 q4.
                let (is_u, is_w) = pure-ok updated v4 q4 in
                record {
                  positive = positive;
                  valid = valid;
                  written =
                      moved written
                        (same2
                          ∙ ap (λ (y : World). y.tables) is_v1
                          ∙ ap (λ (y : World). y.tables) (sym is_v))
                        (sym (cache_delete-tables x s.cache id v3)
                          ∙ ap (λ (y : Result (Unit {0}) × World). y.1.tables) p4
                          ∙ ap (λ (y : World). y.tables) is_w)
                        is_u;
                }

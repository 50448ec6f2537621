-- ===== src/User/Cache/Invalidation.antt =====
-- The cache of users beside the table: what a write to the table makes stale, and what DEL and SET repair.
use go_identity_service.Base.{
  ℕ, ℤ, int_eq, int_eq_iff, Text, text_eq_iff, ◌≡◌, refl, sym, ap, ◌∙◌, subst, inl, inr, Bool, true,
  false, not, ◌&&◌, Bool-cases, any, map_option, if◌then◌else◌, Option, none, some, List, [], find?,
  find?-test, any-find?, find?-update_where, find?-delete_where, update_where, delete_where,
  IsMember, IsMember-delete_where, arith,
}
use go_identity_service.Apperror.{sentinel, user_not_found}
use go_identity_service.External.{External}
use go_identity_service.World.{World, CacheEntry, pure, fail, sql_now}
use go_identity_service.World.Triples.{
  Ends, Triple, Triple-pure, Triple-fail, Triple-map_err, Triple-call, Triple-bind,
}
use go_identity_service.User.Model.{User, cached_user_from_domain}
use go_identity_service.User.Repository as Repository
use go_identity_service.User.Repository.{
  has_id, has_email, set_columns, write_row, without_hash, row, select_by_id, select_exists,
}
use go_identity_service.User.Cache.{user_key, redis_del, has_key}
use go_identity_service.User.Cache.Coherence.{IsCoherent}

module _ (x : External) (prefix : Text) where
  -- No call is to fail, and every entry is that of a row.
  pub record IsFresh (w : World) : Type 0 where
    pub quiet : w.answers ≡ []
    pub coherent : IsCoherent x prefix w

  -- The same, but for the entry of the user `id`.
  pub record IsFreshBut (id : ℤ) (w : World) : Type 0 where
    pub quiet : w.answers ≡ []
    pub entries :
        (i : ℤ) (e : CacheEntry)
        → int_eq i id ≡ false
        → IsMember e w.cache
        → e.key ≡ user_key prefix i
        → (u : User) × (find? (has_id i) w.tables.users ≡ some u)
          × (x.decode_cached e.value ≡ some (cached_user_from_domain u))

  -- RowsAffected tells whether the entry may be stale.
  abbrev AfterDelete : ℤ → Bool → World → Type 0
  AfterDelete id true w = IsFreshBut id w
  AfterDelete id false w = IsFresh w

has_id-has_id :
    (i id : ℤ) (u : User) → int_eq i id ≡ false → has_id i u ≡ true → has_id id u ≡ false
unfolding has_id
has_id-has_id i id u apart held = elim (Bool-cases (int_eq u.id id)) [
  | inl same ↦
      let is_i = (int_eq_iff u.id i).0 held in
      let is_id = (int_eq_iff u.id id).0 same in
      let k = (int_eq_iff i id).1 (sym is_i ∙ is_id) in ground (arith, k, apart)
  | inr other ↦ other
]

found-update_where :
    (u : User) (now : ℕ) (i : ℤ) (us : List User) (r : User)
    → int_eq i u.id ≡ false
    → find? (has_id i) us ≡ some r
    → find? (has_id i) (update_where (has_id u.id) (set_columns u now) us) ≡ some r
found-update_where u now i us r apart found =
    find?-update_where (has_id i) (has_id u.id) (set_columns u now) (λ a. unfold has_id in refl) us
    ∙ ap (map_option (λ a. if has_id u.id a then set_columns u now a else a)) found
    ∙ rw (has_id-has_id i u.id r apart (find?-test _ us r found)) refl

found-delete_where :
    (id i : ℤ) (us : List User) (r : User)
    → any (has_id id) us ≡ false
    → find? (has_id i) us ≡ some r
    → find? (has_id i) (delete_where (has_id id) us) ≡ some r
found-delete_where id i us r absent found = elim (Bool-cases (int_eq i id)) [
  | inl same ↦
      let k = any-find? (has_id i) us r found in
      let k' = subst (λ (n : ℤ). any (has_id n) us ≡ true) ((int_eq_iff i id).0 same) k in cc
  | inr apart ↦
      find?-delete_where (has_id i) (has_id id) (λ a held. has_id-has_id i id a apart held) us
      ∙ found
]

module _ {x : External} {prefix : Text} where
  write_row-Fresh :
      (u : User) (w : World) (o : Option User)
      → IsFresh x prefix w
      → Ends
          (IsFresh x prefix)
          (λ _. IsFreshBut x prefix u.id)
          (write_row u o w).0
          (write_row u o w).1
  write_row-Fresh u w none fresh = fresh
  write_row-Fresh u w (some old) fresh =
      elim (Bool-cases (any (λ o. not (has_id u.id o) && has_email u.email o) w.tables.users)) [
        | inl taken ↦ rw (taken) fresh
        | inr free ↦ rw (free) (record {
          quiet = fresh.quiet;
          entries = λ i e apart m at.
              let (r, found, decoded) = fresh.coherent.entries i e m at in
              (r, found-update_where u (sql_now w) i w.tables.users r apart found, decoded);
        })
      ]

  pub update-Fresh :
      (u : User)
      → Triple
          (IsFresh x prefix)
          (IsFresh x prefix)
          (Repository.update u)
          (λ _. IsFreshBut x prefix u.id)
  unfolding Repository.update Repository.update_user
  update-Fresh u = Triple-map_err _ _ (
      Triple-call _ (λ w fresh. fresh.quiet)
        (record { at = λ w fresh. write_row-Fresh u w (find? (has_id u.id) w.tables.users) fresh }))

  delete_user-AfterDelete :
      (id : ℤ) (w : World) (b : Bool)
      → any (has_id id) w.tables.users ≡ b
      → IsFresh x prefix w
      → AfterDelete x prefix id b (Repository.delete_user id w).1
  unfolding Repository.delete_user
  delete_user-AfterDelete id w true p fresh = record {
    quiet = fresh.quiet;
    entries = λ i e apart m at.
        let (r, found, decoded) = fresh.coherent.entries i e m at in
        (
          r,
          find?-delete_where (has_id i) (has_id id) (λ a held. has_id-has_id i id a apart held)
                w.tables.users
              ∙ found,
          decoded,
        );
  }
  delete_user-AfterDelete id w false p fresh = record {
    quiet = fresh.quiet;
    coherent = record {
      entries = λ i e m at.
          let (r, found, decoded) = fresh.coherent.entries i e m at in
          (r, found-delete_where id i w.tables.users r p found, decoded);
    };
  }

  pub delete-Fresh :
      (id : ℤ)
      → Triple
          (IsFresh x prefix)
          (IsFresh x prefix)
          (Repository.delete id)
          (λ _. IsFreshBut x prefix id)
  unfolding Repository.delete
  delete-Fresh id =
      Triple-bind _ _
        (Triple-map_err _ _ (
          Triple-call _ (λ w fresh. fresh.quiet)
            (record {
              at = λ w fresh.
                  unfold Repository.delete_user in delete_user-AfterDelete id w _ refl fresh;
            })))
        (λ affected. after affected)
    where
      after :
          (b : Bool)
          → Triple
              (IsFresh x prefix)
              (AfterDelete x prefix id b)
              (if b then pure tt else fail (sentinel user_not_found))
              (λ _. IsFreshBut x prefix id)
      after true = Triple-pure tt
      after false = Triple-fail _

  -- The entry of the user is gone.
  pub del-Fresh :
      (id : ℤ) (w : World)
      → IsFreshBut x prefix id w
      → IsFresh x prefix (redis_del (user_key prefix id) w).1
  unfolding redis_del
  del-Fresh id w but = record {
    quiet = but.quiet;
    coherent = record {
      entries = λ i e m at.
          let (kept, other) = IsMember-delete_where (has_key (user_key prefix id)) w.cache e m in
          but.entries i e (apart i e at other) kept at;
    };
  }
    where
      apart :
          (i : ℤ) (e : CacheEntry)
          → e.key ≡ user_key prefix i
          → has_key (user_key prefix id) e ≡ false
          → int_eq i id ≡ false
      apart i e at other = elim (Bool-cases (int_eq i id)) [
        | inl same ↦
            let k =
              (text_eq_iff e.key (user_key prefix id)).1
                (at ∙ ap (user_key prefix) ((int_eq_iff i id).0 same)) in
            cc
        | inr differs ↦ differs
      ]

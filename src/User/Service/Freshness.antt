-- ===== src/User/Service/Freshness.antt =====
-- What the methods of internal/user/service.go that use the cache leave in it.
use go_identity_service.Base.{
  ℕ, ℤ, int_eq_iff, Text, ◌≡◌, refl, sym, ap, ◌∙◌, subst, inl, inr, true, Bool-cases, Option, none,
  some, List, [], ◌∷◌, map, find?, IsMember-cons, IsMember-delete_where,
}
use go_identity_service.Apperror.{Error}
use go_identity_service.External.{External}
use go_identity_service.World.{World, CacheEntry, ◌>>=◌, pure, fail, on_err, attempt, of_option}
use go_identity_service.World.Rules.{call_answered}
use go_identity_service.World.Triples.{
  Ends, Triple, Triple-pure, Triple-fail, Triple-if, Triple-map_err, Triple-call, Triple-bind,
  Triple-attempt,
}
use go_identity_service.User.Model.{User, CachedUser, cached_user_from_domain}
use go_identity_service.User.Repository as Repository
use go_identity_service.User.Repository.{has_id, without_hash, row, select_by_id, select_exists}
use go_identity_service.User.Cache
use go_identity_service.User.Cache.{user_key, redis_set, redis_del}
use go_identity_service.User.Cache.Coherence.{user_key-injective}
use go_identity_service.User.Cache.Invalidation.{IsFresh, IsFreshBut, del-Fresh}
use go_identity_service.User.Service.{
  CacheConfig, require_nil, check_email_free, cache_set, cache_delete,
}

some-injective : {a b : User} → ◌≡◌ {A = Option User} (some a) (some b) → a ≡ b
some-injective h = cc

found-without_hash :
    (id : ℤ) (us : List User) (u : User)
    → find? (has_id id) (map without_hash us) ≡ some u
    → (r : User) × (find? (has_id id) us ≡ some r) × (u ≡ without_hash r) × (has_id id r ≡ true)
unfolding find? has_id without_hash
found-without_hash id [] u h = cc
found-without_hash id (v ∷ us) u h = elim (Bool-cases (has_id id v)) [
  | inl held ↦ (v, rw (held) refl, sym (some-injective (rw held at h)), held)
  | inr miss ↦
      let (r, found, same, held) = found-without_hash id us u (rw miss at h) in
      (r, rw miss found, same, held)
]

module _ (x : External) (prefix : Text) where
  -- The user is the row that the table has under its id, without the hash.
  pub record IsRow (u : User) (w : World) : Type 0 where
    pub fresh : IsFresh x prefix w
    pub stored : User
    pub found : find? (has_id u.id) w.tables.users ≡ some stored
    pub same : u ≡ without_hash stored

module _ {x : External} {prefix : Text} where
  exists_by_email-Fresh :
      (email : Text)
      → Triple
          (IsFresh x prefix)
          (IsFresh x prefix)
          (Repository.exists_by_email email)
          (λ _. IsFresh x prefix)
  unfolding Repository.exists_by_email select_exists
  exists_by_email-Fresh email =
      Triple-map_err _ _ (Triple-call _ (λ w fresh. fresh.quiet) (record { at = λ w fresh. fresh }))

  row-IsRow :
      (id : ℤ) (w : World) (o : Option User)
      → find? (has_id id) (map without_hash w.tables.users) ≡ o
      → IsFresh x prefix w
      → Ends (IsFresh x prefix) (IsRow x prefix) (row o w).0 (row o w).1
  unfolding without_hash
  row-IsRow id w none p fresh = fresh
  row-IsRow id w (some u) p fresh =
      let (r, found, same, held) = found-without_hash id w.tables.users u p in
      let is_id = ap (λ (v : User). v.id) same ∙ (int_eq_iff r.id id).0 (unfold has_id in held) in
      record {
        fresh = fresh;
        stored = r;
        found = subst (λ (n : ℤ). find? (has_id n) w.tables.users ≡ some r) (sym is_id) found;
        same = same;
      }

  pub find_by_id-IsRow :
      (id : ℤ)
      → Triple (IsFresh x prefix) (IsFresh x prefix) (Repository.find_by_id id) (IsRow x prefix)
  unfolding Repository.find_by_id select_by_id
  find_by_id-IsRow id = Triple-map_err _ _ (
      Triple-call _ (λ w fresh. fresh.quiet)
        (record { at = λ w fresh. row-IsRow id w _ refl fresh }))

  pub require_nil-Fresh :
      (o : Option Error)
      → Triple (IsFresh x prefix) (IsFresh x prefix) (require_nil o) (λ _. IsFresh x prefix)
  require_nil-Fresh none = Triple-pure tt
  require_nil-Fresh (some e) = Triple-fail e

  pub check_email_free-Fresh :
      (old email : Text)
      → Triple
          (IsFresh x prefix)
          (IsFresh x prefix)
          (check_email_free x old email)
          (λ _. IsFresh x prefix)
  unfolding check_email_free
  check_email_free-Fresh old email = Triple-if _ _ _ (Triple-pure tt) (
      Triple-bind _ _ (Triple-map_err _ _ (exists_by_email-Fresh email))
        (λ exists. Triple-if exists _ _ (Triple-fail _) (Triple-pure tt)))

  pub cache_delete-Fresh :
      (ttl : ℕ) (id : ℤ)
      → Triple
          (IsFresh x prefix)
          (IsFreshBut x prefix id)
          (cache_delete x (some (record { prefix = prefix; ttl = ttl })) id)
          (λ _. IsFresh x prefix)
  unfolding cache_delete ◌>>=◌ attempt Cache.delete_user on_err pure fail redis_del
  cache_delete-Fresh ttl id = record {
    at = λ w but.
        rw (call_answered (redis_del (user_key prefix id)) w but.quiet)
          (unfold redis_del in del-Fresh id w but);
  }

  redis_set-Fresh :
      (u : User) (raw : Text) (ttl : ℕ) (w : World)
      → IsRow x prefix u w
      → x.decode_cached raw ≡ some (cached_user_from_domain u)
      → IsFresh x prefix (redis_set (user_key prefix u.id) raw ttl w).1
  unfolding redis_set
  redis_set-Fresh u raw ttl w row decoded = record {
    quiet = row.fresh.quiet;
    coherent = record {
      entries = λ i e m at. elim (IsMember-cons m) [
        | inl new ↦
            let is_id =
              user_key-injective prefix u.id i (sym (ap (λ (c : CacheEntry). c.key) new) ∙ at) in
            (
              row.stored,
              subst (λ (n : ℤ). find? (has_id n) w.tables.users ≡ some row.stored) is_id row.found,
              ap (λ (c : CacheEntry). x.decode_cached c.value) new
                  ∙ decoded
                  ∙ ap (λ (v : User). some (cached_user_from_domain v)) row.same
                  ∙ (unfold cached_user_from_domain without_hash in refl),
            )
        | inr old ↦ row.fresh.coherent.entries i e (IsMember-delete_where _ w.cache e old).0 at
      ];
    };
  }

  of_option-Fresh :
      {A : Type 0} (o : Option A) (P : World → Type 0)
      → ((w : World) → P w → IsFresh x prefix w)
      → Triple (IsFresh x prefix) P (of_option o) (λ a v. P v × (o ≡ some a))
  unfolding of_option
  of_option-Fresh none P weaken = record { at = λ w p. weaken w p }
  of_option-Fresh (some a) P weaken = record { at = λ w p. (p, refl) }

-- JSON reads back what it has written.
module _ {x : External}
    (codec : (u : CachedUser) (raw : Text)
      → x.encode_cached u ≡ some raw
      → x.decode_cached raw ≡ some u)
    (c : CacheConfig) where
  set_user-Fresh :
      (u : User)
      → Triple
          (IsFresh x c.prefix)
          (IsRow x c.prefix u)
          (Cache.set_user x c.prefix u c.ttl)
          (λ _. IsFresh x c.prefix)
  unfolding Cache.set_user
  set_user-Fresh u =
      Triple-bind _ _
        (Triple-map_err _ _ (of_option-Fresh _ (IsRow x c.prefix u) (λ w row. row.fresh)))
        (λ raw. Triple-map_err _ _ (
          Triple-call
            {P = λ w.
              IsRow x c.prefix u w × (x.encode_cached (cached_user_from_domain u) ≡ some raw)}
            _ (λ w p. p.0.fresh.quiet)
            (record {
              at = λ w p. unfold redis_set in redis_set-Fresh u raw c.ttl w p.0 (codec _ raw p.1);
            })))

  pub cache_set-Fresh :
      (u : User)
      → Triple
          (IsFresh x c.prefix)
          (IsRow x c.prefix u)
          (cache_set x (some c) u)
          (λ _. IsFresh x c.prefix)
  unfolding cache_set
  cache_set-Fresh u = Triple-bind _ _ (Triple-attempt _ (set_user-Fresh u)) (λ r. Triple-pure tt)

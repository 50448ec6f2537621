-- ===== src/User/Service/Caching.antt =====
-- GetUser of internal/user/service.go with and without the cache.
use go_identity_service.Base.{
  ℤ, pos, int_leb, ◌≡◌, refl, sym, ap, ◌∙◌, inl, inr, false, Bool-cases, Option, none, some, [],
  find?,
}
use go_identity_service.Apperror.{Result, ok, err}
use go_identity_service.External.{External}
use go_identity_service.World.{World, M, ◌>>=◌, pure, on_err, attempt, map_err, continue}
use go_identity_service.World.Rules.{call_answered}
use go_identity_service.User.Model.{User}
use go_identity_service.User.Repository.{has_id, without_hash, select_by_id, find_by_id}
use go_identity_service.User.Cache
use go_identity_service.User.Cache.{is_present, user_key}
use go_identity_service.User.Cache.Coherence.{IsCoherent, cached-row, find?-without_hash}
use go_identity_service.User.Service.{
  Service, CacheConfig, get_user, cache_get, cache_set, fetch_and_cache, get_or_fetch, public_or,
}

continue-same :
    {A : Type 0} (f : A → M A) (r : Result A) (w : World)
    → ((a : A) (v : World) → (f a v).0 ≡ ok a)
    → (continue r f w).0 ≡ r
continue-same f (ok a) w h = h a w
continue-same f (err e) w h = refl

module _ (x : External) (s : Service) where
  cache_set-pure :
      (o : Option CacheConfig) (u : User) (w : World)
      → ((cache_set x o u >>= λ _. pure u) w).0 ≡ ok u
  unfolding cache_set ◌>>=◌ pure attempt
  cache_set-pure none u w = refl
  cache_set-pure (some c) u w = refl

  fetch_and_cache-find_by_id :
      (id : ℤ) (w : World)
      → (fetch_and_cache x s id w).0 ≡ (map_err (public_or "find user by id") (find_by_id id) w).0
  unfolding fetch_and_cache ◌>>=◌
  fetch_and_cache-find_by_id id w =
      continue-same (λ u. cache_set x s.cache u >>= λ _. pure u) _ _
        (λ u v. cache_set-pure s.cache u v)

find_by_id-found :
    (id : ℤ) (w : World) (u : User)
    → w.answers ≡ []
    → find? (has_id id) w.tables.users ≡ some u
    → (map_err (public_or "find user by id") (find_by_id id) w).0 ≡ ok (without_hash u)
unfolding find_by_id on_err select_by_id
find_by_id-found id w u quiet found =
    rw (call_answered (select_by_id id) w quiet, find?-without_hash id w.tables.users u found)

module _ (x : External) (id : ℤ) (w : World) where
  get_user-get_or_fetch :
      (s : Service) (o : Option User)
      → int_leb id (pos 0) ≡ false
      → cache_get x s.cache id w ≡ (ok o, w)
      → get_user x s id w ≡ get_or_fetch x s id o w
  unfolding get_user ◌>>=◌
  get_user-get_or_fetch s o positive p = rw (positive, p) refl

  cache_get-get_user :
      (c : CacheConfig) (o : Option User)
      → Cache.get_user x c.prefix id w ≡ (ok o, w)
      → cache_get x (some c) id w ≡ (ok o, w)
  unfolding cache_get ◌>>=◌ attempt pure
  cache_get-get_user c o p = rw (p) refl

  get_or_fetch-pure : (s : Service) (u : User) → get_or_fetch x s id (some u) w ≡ (ok u, w)
  unfolding get_or_fetch pure
  get_or_fetch-pure s u = refl

  -- Without an entry, or without a cache, GetUser gives what the repository gives.
  get_user-find_by_id :
      (s : Service)
      → int_leb id (pos 0) ≡ false
      → cache_get x s.cache id w ≡ (ok none, w)
      → (get_user x s id w).0 ≡ (map_err (public_or "find user by id") (find_by_id id) w).0
  get_user-find_by_id s positive p =
      ap (λ (r : Result User × World). r.0) (get_user-get_or_fetch s none positive p)
      ∙ (unfold get_or_fetch in fetch_and_cache-find_by_id x s id w)

  get_user-cached :
      (s : Service) (c : CacheConfig)
      → int_leb id (pos 0) ≡ false
      → IsCoherent x c.prefix w
      → w.answers ≡ []
      → (get_user x (record s { cache = some c }) id w).0
        ≡ (map_err (public_or "find user by id") (find_by_id id) w).0
  get_user-cached s c positive coherent quiet =
      let s' : Service = record s { cache = some c } in
      elim (cached-row x c.prefix id w _ refl coherent quiet) [
        | inl missing ↦ get_user-find_by_id s' positive (cache_get-get_user c none missing)
        | inr (u, found, cached) ↦
            ap (λ (r : Result User × World). r.0)
              (get_user-get_or_fetch s' _ positive (cache_get-get_user c _ cached)
                ∙ get_or_fetch-pure s' (without_hash u))
            ∙ sym (find_by_id-found id w u quiet found)
      ]

  -- In a state whose cache is coherent with the table, and in which no call fails, GetUser with the cache
  -- returns what it returns without: the same user, or the same error.
  pub get_user_transparent :
      (s : Service) (c : CacheConfig)
      → IsCoherent x c.prefix w
      → w.answers ≡ []
      → (get_user x (record s { cache = some c }) id w).0
        ≡ (get_user x (record s { cache = none }) id w).0
  get_user_transparent s c coherent quiet = elim (Bool-cases (int_leb id (pos 0))) [
    | inl refused ↦ unfold get_user in rw (refused) refl
    | inr positive ↦
        get_user-cached s c positive coherent quiet
        ∙ sym (
            get_user-find_by_id (record s { cache = none }) positive
              (unfold cache_get pure in refl))
  ]

-- ===== src/User/Cache/Coherence.antt =====
-- The cache of users beside the table: when GetUser gives the same with the cache as without it.
use go_identity_service.Base.{
  ℕ, ℤ, Text, text_eq, text_eq_iff, codes, format_int-injective, ◌≡◌, refl, ap, ◌∙◌, ◌⊎◌, inl, inr,
  Bool, true, Bool-cases, Option, none, some, List, [], ◌∷◌, ◌++◌, map, find?, find?-test, IsMember,
  first, later, arith,
}
use go_identity_service.Apperror.{sentinel, redis_nil, errors_is, Result, ok, err}
use go_identity_service.External.{External}
use go_identity_service.World.{World, CacheEntry, ◌>>=◌, pure, fail, on_err, of_option}
use go_identity_service.World.Rules.{call_answered}
use go_identity_service.User.Model.{User, CachedUser, cached_user_from_domain, to_domain}
use go_identity_service.User.Repository.{has_id, without_hash}
use go_identity_service.User.Cache
use go_identity_service.User.Cache.{redis_get, redis_set, redis_del, is_present, user_key, decode}

append-injective : (p s t : Text) → p ++ s ≡ p ++ t → s ≡ t
append-injective [] s t h = h
append-injective (c ∷ p) s t h = append-injective p s t (ground (arith, h))

pub user_key-injective : (prefix : Text) (a b : ℤ) → user_key prefix a ≡ user_key prefix b → a ≡ b
unfolding user_key
user_key-injective prefix a b h =
    format_int-injective a b (append-injective (prefix ++ codes ":user:id:") _ _ h)

find?-IsMember :
    {A : Type 0} (p : A → Bool) (xs : List A) (a : A) → find? p xs ≡ some a → IsMember a xs
unfolding find?
find?-IsMember p [] a h = cc
find?-IsMember p (x ∷ xs) a h = elim (Bool-cases (p x)) [
  | inl held ↦ first (ground (arith, rw held at h))
  | inr miss ↦ later (find?-IsMember p xs a (rw miss at h))
]

pub find?-without_hash :
    (id : ℤ) (us : List User) (u : User)
    → find? (has_id id) us ≡ some u
    → find? (has_id id) (map without_hash us) ≡ some (without_hash u)
unfolding find? has_id without_hash
find?-without_hash id [] u h = cc
find?-without_hash id (v ∷ us) u h = ground (arith, find?-without_hash id us u)

module _ (x : External) (prefix : Text) where
  -- An entry under a user's key is that of the row which the table has under the user's id.
  pub record IsCoherent (w : World) : Type 0 where
    pub entries :
        (id : ℤ) (e : CacheEntry)
        → IsMember e w.cache
        → e.key ≡ user_key prefix id
        → (u : User) × (find? (has_id id) w.tables.users ≡ some u)
          × (x.decode_cached e.value ≡ some (cached_user_from_domain u))

  decode-some :
      (raw : Text) (c : CachedUser) (w : World)
      → x.decode_cached raw ≡ some c
      → decode x prefix (some raw) w ≡ (ok (some (to_domain c)), w)
  unfolding decode ◌>>=◌ on_err of_option pure fail
  decode-some raw c w h = rw (h)

abbrev stored : Option CacheEntry → Option Text
stored none = none
stored (some e) = some e.value

abbrev reply : Option CacheEntry → World → Result Text × World
reply none w = (err (sentinel redis_nil), w)
reply (some e) w = (ok e.value, w)

redis_get-reply :
    (key : Text) (w : World) (o : Option CacheEntry)
    → find? (is_present key w.clock) w.cache ≡ o
    → redis_get key w ≡ reply o w
unfolding redis_get
redis_get-reply key w none p =
    ap
      (λ (o : Option CacheEntry). elim o as (λ _. Result Text × World) [
        | none ↦ (err (sentinel redis_nil), w)
        | some e ↦ (ok e.value, w)
      ])
      p
redis_get-reply key w (some e) p =
    ap
      (λ (o : Option CacheEntry). elim o as (λ _. Result Text × World) [
        | none ↦ (err (sentinel redis_nil), w)
        | some e ↦ (ok e.value, w)
      ])
      p

matching :
    (key : Text) (now : ℕ) (e : CacheEntry) → is_present key now e ≡ true → text_eq e.key key ≡ true
unfolding is_present
matching key now e h = ground (arith, h)

module _ (x : External) (prefix : Text) where
  get_user-decode :
      (id : ℤ) (w : World) (o : Option CacheEntry)
      → find? (is_present (user_key prefix id) w.clock) w.cache ≡ o
      → w.answers ≡ []
      → Cache.get_user x prefix id w ≡ decode x prefix (stored o) w
  unfolding Cache.get_user ◌>>=◌ on_err pure fail errors_is
  get_user-decode id w none p quiet =
      rw (call_answered (redis_get (user_key prefix id)) w quiet, redis_get-reply _ w none p)
  get_user-decode id w (some e) p quiet =
      rw (call_answered (redis_get (user_key prefix id)) w quiet, redis_get-reply _ w (some e) p)

  -- Without a failure the cache gives nothing, or the row of the user without the hash.
  pub cached-row :
      (id : ℤ) (w : World) (o : Option CacheEntry)
      → find? (is_present (user_key prefix id) w.clock) w.cache ≡ o
      → IsCoherent x prefix w
      → w.answers ≡ []
      → (Cache.get_user x prefix id w ≡ (ok none, w))
        ⊎ ((u : User) × (find? (has_id id) w.tables.users ≡ some u)
            × (Cache.get_user x prefix id w ≡ (ok (some (without_hash u)), w)))
  cached-row id w none p c quiet =
      inl (get_user-decode id w none p quiet ∙ (unfold decode pure in refl))
  cached-row id w (some e) p c quiet =
      let (u, found, decoded) =
        c.entries id e (find?-IsMember _ _ e p)
          ((text_eq_iff _ _).0 (matching _ _ e (find?-test _ _ e p))) in
      inr (
        u,
        found,
        get_user-decode id w (some e) p quiet
            ∙ decode-some x prefix _ _ w decoded
            ∙ (unfold cached_user_from_domain to_domain without_hash in refl),
      )

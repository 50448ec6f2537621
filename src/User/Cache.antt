-- ===== src/User/Cache.antt =====
-- internal/user/user_cache.go, with the Redis commands GET, SET with a time to live, and DEL.
pub mod Preserved
pub mod Coherence
pub mod Invalidation
use go_identity_service.Base.{
  ℕ, ◌+◌, ℤ, Text, text_eq, codes, Bool, ◌&&◌, leb, Option, none, some, ◌∷◌, ◌++◌, find?,
  delete_where, format_int, if◌then◌else◌,
}
use go_identity_service.Apperror.{sentinel, wrapped, redis_nil, errors_is, ok, err}
use go_identity_service.External.{External}
use go_identity_service.World.{CacheEntry, M, ◌>>=◌, pure, fail, on_err, map_err, of_option, call}
use go_identity_service.User.Model.{User, cached_user_from_domain, to_domain}

-- c.userKey
unfoldable pub user_key : Text → ℤ → Text
user_key prefix id = prefix ++ codes ":user:id:" ++ format_int id

-- A key is there until the clock is past the end of its time to live.
unfoldable pub is_present : Text → ℕ → CacheEntry → Bool
is_present key now e = text_eq e.key key && leb now e.expires_at

unfoldable pub redis_get : Text → M Text
unfolding is_present
redis_get key w = elim (find? (is_present key w.clock) w.cache) [
  | none ↦ (err (sentinel redis_nil), w)
  | some e ↦ (ok e.value, w)
]

abbrev has_key : Text → CacheEntry → Bool
has_key key e = text_eq e.key key

unfoldable pub redis_set : Text → Text → ℕ → M (Unit {0})
redis_set key value ttl w =
    let entry : CacheEntry = record { key = key; value = value; expires_at = w.clock + ttl } in
    (ok tt, record w { cache = entry ∷ delete_where (has_key key) w.cache })

unfoldable pub redis_del : Text → M (Unit {0})
redis_del key w = (ok tt, record w { cache = delete_where (has_key key) w.cache })

module _ (x : External) (prefix : Text) where
  unfoldable pub decode : Option Text → M (Option User)
  decode none = pure none
  decode (some raw) = do
    cached ← map_err (wrapped "unmarshal cached user failed") (of_option (x.decode_cached raw))
    pure (some (to_domain cached))

  -- The pair of the source's result, User and bool, is an Option.
  unfoldable pub get_user : ℤ → M (Option User)
  unfolding decode redis_get errors_is
  get_user id = do
    raw ←
        on_err (do v ← call (redis_get (user_key prefix id)); pure (some v))
          (λ e.
            if errors_is e redis_nil
            then pure none
            else fail (wrapped "get user from redis failed" e))
    decode raw

  unfoldable pub set_user : User → ℕ → M (Unit {0})
  unfolding redis_set
  set_user u ttl = do
    encoded ←
        map_err (wrapped "marshal cached user failed")
          (of_option (x.encode_cached (cached_user_from_domain u)))
    map_err (wrapped "set user to redis cache failed")
        (call (redis_set (user_key prefix u.id) encoded ttl))

  unfoldable pub delete_user : ℤ → M (Unit {0})
  unfolding redis_del
  delete_user id =
      map_err (wrapped "delete user from redis cache failed")
        (call (redis_del (user_key prefix id)))

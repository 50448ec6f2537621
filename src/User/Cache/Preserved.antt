-- ===== src/User/Cache/Preserved.antt =====
-- The operations of the cache write to no table.
use go_identity_service.Base.{ℕ, ℤ, Text, Option, none, some, find?}
use go_identity_service.Apperror.{sentinel, redis_nil, Result, ok, err}
use go_identity_service.External.{External}
use go_identity_service.World.{World, Tables, CacheEntry}
use go_identity_service.World.Preserves.{Preserves, preserves_rules}
use go_identity_service.User.Model.{User}
use go_identity_service.User.Cache
use go_identity_service.User.Cache.{redis_get, redis_set, redis_del, is_present}

module _ {P : Tables → Type 0} where
  get-Preserves : (key : Text) → Preserves P (redis_get key)
  unfolding redis_get
  get-Preserves key = record { at = λ w h. go (find? (is_present key w.clock) w.cache) w h }
    where
      go :
          (o : Option CacheEntry) (w : World)
          → P w.tables
          → P
              (elim o as (λ _. Result Text × World) [
                | none ↦ (err (sentinel redis_nil), w)
                | some e ↦ (ok e.value, w)
              ]).1.tables
      go none w h = h
      go (some e) w h = h

  set-Preserves : (key value : Text) (ttl : ℕ) → Preserves P (redis_set key value ttl)
  unfolding redis_set
  set-Preserves key value ttl = record { at = λ w h. h }

  del-Preserves : (key : Text) → Preserves P (redis_del key)
  unfolding redis_del
  del-Preserves key = record { at = λ w h. h }

  module _ (x : External) where
    decode-Preserves : (prefix : Text) (o : Option Text) → Preserves P (Cache.decode x prefix o)
    unfolding Cache.decode
    decode-Preserves prefix none = search preserves_rules depth 30
    decode-Preserves prefix (some raw) = search preserves_rules depth 30

    pub get_user-Preserves : (prefix : Text) (id : ℤ) → Preserves P (Cache.get_user x prefix id)
    unfolding Cache.get_user
    get_user-Preserves prefix id =
        search (preserves_rules, get-Preserves, decode-Preserves) depth 30

    pub set_user-Preserves :
        (prefix : Text) (u : User) (ttl : ℕ) → Preserves P (Cache.set_user x prefix u ttl)
    unfolding Cache.set_user
    set_user-Preserves prefix u ttl = search (preserves_rules, set-Preserves) depth 30

    pub delete_user-Preserves :
        (prefix : Text) (id : ℤ) → Preserves P (Cache.delete_user x prefix id)
    unfolding Cache.delete_user
    delete_user-Preserves prefix id = search (preserves_rules, del-Preserves) depth 30

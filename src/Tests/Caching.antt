-- ===== src/Tests/Caching.antt =====
-- The cache of users on the sample installation.
use go_identity_service.Base.{
  ℤ, pos, int_eq, int_eq_iff, Text, text_eq, text_eq_iff, codes, str_eq, str_eq_iff, ◌==◌, ◌≡◌,
  refl, sym, ap, inl, inr, Bool, true, false, ◌&&◌, Bool-cases, if◌then◌else◌, Option, none, some,
  List, [], ◌∷◌, arith,
}
use go_identity_service.External.{External}
use go_identity_service.User.Model.{CachedUser, role_user}
use go_identity_service.User.Service.{UpdateUserInput, CacheConfig, get_user}
use go_identity_service.User.Cache.Coherence.{IsCoherent}
use go_identity_service.User.Service.Requests.{
  Request, read, update, remove, with_cache, serve_all, serve_all-IsCoherent,
}
use go_identity_service.Tests.Sample.{external, users, world, ada, cached_ada}

-- A codec that knows Ada, as the table has her.
is_ada : CachedUser → Bool
is_ada u =
    int_eq u.id (pos 1)
    && (text_eq u.name ada.name
        && (text_eq u.email ada.email
            && (int_eq u.age (pos 36)
                && (str_eq u.role role_user && (u.created_at == 5 && u.updated_at == 5)))))

is_ada-cached_ada : (u : CachedUser) → is_ada u ≡ true → u ≡ cached_ada
unfolding is_ada
is_ada-cached_ada u h =
    let (a, h1) = split _ _ h in
    let (b, h2) = split _ _ h1 in
    let (c, h3) = split _ _ h2 in
    let (d, h4) = split _ _ h3 in
    let (e, h5) = split _ _ h4 in
    let (f, g) = split (u.created_at == 5) (u.updated_at == 5) h5 in
    let is_id = (int_eq_iff u.id (pos 1)).0 a in
    let is_name = (text_eq_iff u.name ada.name).0 b in
    let is_email = (text_eq_iff u.email ada.email).0 c in
    let is_age = (int_eq_iff u.age (pos 36)).0 d in
    let is_role = (str_eq_iff u.role role_user).0 e in
    let is_created : u.created_at ≡ 5 = ground (arith, f) in
    let is_updated : u.updated_at ≡ 5 = ground (arith, g) in
    λ i. record {
      id = is_id i;
      name = is_name i;
      email = is_email i;
      age = is_age i;
      role = is_role i;
      created_at = is_created i;
      updated_at = is_updated i;
    }
  where
    split : (p q : Bool) → p && q ≡ true → (p ≡ true) × (q ≡ true)
    split true q h = (refl, h)
    split false q h = cc

abbrev caching : External
caching = record external {
  encode_cached = λ u. if is_ada u then some (codes "ada") else none;
  decode_cached = λ raw. if text_eq raw (codes "ada") then some cached_ada else none;
}

some-injective : {a b : Text} → ◌≡◌ {A = Option Text} (some a) (some b) → a ≡ b
some-injective h = cc

caching_reads_back :
    (u : CachedUser) (raw : Text)
    → caching.encode_cached u ≡ some raw
    → caching.decode_cached raw ≡ some u
caching_reads_back u raw h = elim (Bool-cases (is_ada u)) [
  | inl held ↦
      let written = some-injective (rw held at h) in
      let hit = (text_eq_iff raw (codes "ada")).1 (sym written) in
      rw (hit) (ap (λ (c : CachedUser). some c) (sym (is_ada-cached_ada u held)))
  | inr other ↦ let k = rw other at h in cc
]

abbrev config : CacheConfig
config = record { prefix = codes "ids"; ttl = 60 }

abbrev change : UpdateUserInput
change = record { name = codes "Ada L"; email = codes "ada@lovelace"; age = pos 37 }

abbrev requests : List Request
requests = read (pos 1) ∷ read (pos 1) ∷ update (pos 1) change ∷ read (pos 1) ∷ remove (pos 1) ∷ []

nothing_cached : IsCoherent caching config.prefix world
nothing_cached = record { entries = λ id e member at. elim member [ ] }

serve_all-IsCoherent_example :
    IsCoherent caching config.prefix (serve_all caching (with_cache users config) requests world)
    × ((id : ℤ)
        → (get_user caching
            (with_cache users config)
            id
            (serve_all caching (with_cache users config) requests world)).0
          ≡ (get_user caching
              (record users { cache = none })
              id
              (serve_all caching (with_cache users config) requests world)).0)
serve_all-IsCoherent_example =
    serve_all-IsCoherent caching caching_reads_back users config requests world nothing_cached refl

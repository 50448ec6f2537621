-- ===== src/User/Service/Requests.antt =====
-- Sequences of the requests of internal/user/service.go that use the cache.
use go_identity_service.Base.{
  ℤ, pos, int_leb, Text, ◌≡◌, refl, sym, subst, inl, inr, Option, none, some, List, [], ◌∷◌,
}
use go_identity_service.Apperror.{Result, ok, err}
use go_identity_service.External.{External}
use go_identity_service.World.{World, M}
use go_identity_service.World.Triples.{
  Ends, Triple, Triple-weaken, Triple-pure, Triple-fail, Triple-if, Triple-map_err, Triple-bind,
  Triple-attempt,
}
use go_identity_service.User.Model.{User, CachedUser}
use go_identity_service.User.Cache
use go_identity_service.User.Cache.Coherence.{IsCoherent, cached-row}
use go_identity_service.User.Cache.Invalidation.{IsFresh, update-Fresh, delete-Fresh}
use go_identity_service.User.Service.{
  Service, UpdateUserInput, CacheConfig, cache_get, fetch_and_cache, get_or_fetch, get_user,
  update_user, delete_user,
}
use go_identity_service.User.Service.Caching.{get_user_transparent}
use go_identity_service.User.Service.Freshness.{
  find_by_id-IsRow, require_nil-Fresh, check_email_free-Fresh, cache_delete-Fresh, cache_set-Fresh,
}

pub data Request : Type 0 where
  read : ℤ → Request
  update : ℤ → UpdateUserInput → Request
  remove : ℤ → Request

module _ (x : External) (s : Service) where
  unfoldable pub serve : Request → World → World
  serve (read id) w = (get_user x s id w).1
  serve (update id input) w = (update_user x s id input w).1
  serve (remove id) w = (delete_user x s id w).1

  unfoldable pub serve_all : List Request → World → World
  serve_all [] w = w
  serve_all (r ∷ rs) w = serve_all rs (serve r w)

Ends-Fresh :
    {A : Type 0} (I : World → Type 0) (r : Result A) (w : World) → Ends I (λ _. I) r w → I w
Ends-Fresh I (ok a) w p = p
Ends-Fresh I (err e) w p = p

abbrev pub with_cache : Service → CacheConfig → Service
with_cache s c = record s { cache = some c }

module _ (x : External) (c : CacheConfig) where
  abbrev Fresh : World → Type 0
  Fresh = IsFresh x c.prefix

  -- An action that keeps the cache coherent, whether it returns or fails.
  abbrev Safe : {A : Type 0} → M A → Type 0
  Safe m = Triple Fresh Fresh m (λ _. Fresh)

-- JSON reads back what it has written.
module _ (x : External)
    (codec : (u : CachedUser) (raw : Text)
      → x.encode_cached u ≡ some raw
      → x.decode_cached raw ≡ some u)
    (s : Service) (c : CacheConfig) where
  update_user-Fresh :
      (id : ℤ) (input : UpdateUserInput) → Safe x c (update_user x (with_cache s c) id input)
  unfolding update_user
  update_user-Fresh id input = Triple-if (int_leb id (pos 0)) _ _ (Triple-fail _) (
      Triple-bind _ _ (require_nil-Fresh _) (λ checked.
        Triple-bind _ _ (Triple-map_err _ _ (find_by_id-IsRow id)) (λ existing.
          Triple-bind _ _ (Triple-weaken (λ w row. row.fresh) (check_email_free-Fresh _ _)) (λ free.
            Triple-bind _ _ (Triple-map_err _ _ (update-Fresh _)) (λ updated.
              Triple-bind _ _ (cache_delete-Fresh c.ttl id) (λ deleted. Triple-pure updated))))))

  delete_user-Fresh : (id : ℤ) → Safe x c (delete_user x (with_cache s c) id)
  unfolding delete_user
  delete_user-Fresh id =
      Triple-if (int_leb id (pos 0)) _ _ (Triple-fail _) (
        Triple-bind _ _ (Triple-map_err _ _ (delete-Fresh id))
          (λ done. cache_delete-Fresh c.ttl id))

  cached-Fresh : (id : ℤ) → Safe x c (Cache.get_user x c.prefix id)
  cached-Fresh id = record {
    at = λ w fresh. elim (cached-row x c.prefix id w _ refl fresh.coherent fresh.quiet) [
      | inl missing ↦
          subst (λ (r : Result (Option User) × World). Ends (Fresh x c) (λ _. Fresh x c) r.0 r.1)
            (sym missing) fresh
      | inr (u, found, cached) ↦
          subst (λ (r : Result (Option User) × World). Ends (Fresh x c) (λ _. Fresh x c) r.0 r.1)
            (sym cached) fresh
    ];
  }

  get_or_fetch-Fresh : (id : ℤ) (o : Option User) → Safe x c (get_or_fetch x (with_cache s c) id o)
  unfolding get_or_fetch fetch_and_cache
  get_or_fetch-Fresh id (some u) = Triple-pure u
  get_or_fetch-Fresh id none =
      Triple-bind _ _ (Triple-map_err _ _ (find_by_id-IsRow id))
        (λ u. Triple-bind _ _ (cache_set-Fresh {x = x} codec c u) (λ done. Triple-pure u))

  get_user-Fresh : (id : ℤ) → Safe x c (get_user x (with_cache s c) id)
  unfolding get_user cache_get
  get_user-Fresh id = Triple-if (int_leb id (pos 0)) _ _ (Triple-fail _) (
      Triple-bind _ _ (Triple-bind _ _ (Triple-attempt _ (cached-Fresh id)) (λ r. Triple-pure _))
        (get_or_fetch-Fresh id))

  serve-Fresh : (r : Request) (w : World) → Fresh x c w → Fresh x c (serve x (with_cache s c) r w)
  unfolding serve
  serve-Fresh (read id) w fresh = Ends-Fresh (Fresh x c) _ _ ((get_user-Fresh id).at w fresh)
  serve-Fresh (update id input) w fresh =
      Ends-Fresh (Fresh x c) _ _ ((update_user-Fresh id input).at w fresh)
  serve-Fresh (remove id) w fresh = Ends-Fresh (Fresh x c) _ _ ((delete_user-Fresh id).at w fresh)

  serve_all-Fresh :
      (rs : List Request) (w : World) → Fresh x c w → Fresh x c (serve_all x (with_cache s c) rs w)
  unfolding serve_all
  serve_all-Fresh [] w fresh = fresh
  serve_all-Fresh (r ∷ rs) w fresh = serve_all-Fresh rs _ (serve-Fresh r w fresh)

  -- Where JSON reads back what it has written, no call fails and the cache is coherent with the table, the
  -- cache is coherent after every sequence of GetUser, UpdateUser and DeleteUser; and then GetUser with
  -- the cache returns for every id what it returns without: no read is stale.
  pub serve_all-IsCoherent :
      (rs : List Request) (w : World)
      → IsCoherent x c.prefix w
      → w.answers ≡ []
      → IsCoherent x c.prefix (serve_all x (with_cache s c) rs w)
        × ((id : ℤ)
            → (get_user x (with_cache s c) id (serve_all x (with_cache s c) rs w)).0
              ≡ (get_user x (record s { cache = none }) id (serve_all x (with_cache s c) rs w)).0)
  serve_all-IsCoherent rs w coherent quiet =
      let after = serve_all-Fresh rs w (record { quiet = quiet; coherent = coherent }) in
      (after.coherent, λ id. get_user_transparent x id _ s c after.coherent after.quiet)

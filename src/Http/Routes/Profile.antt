-- ===== src/Http/Routes/Profile.antt =====
-- GET /users/{id}: whose record a user is shown.
use go_identity_service.Base.{
  ℤ, Text, parse_int64, trim_space-parse_int64, ◌≡◌, refl, sym, ap, ◌∙◌, ◌⊎◌, inl, inr, Option,
  none, some, arith,
}
use go_identity_service.Apperror.{Result, ok, err}
use go_identity_service.External.{External}
use go_identity_service.World.{World, ◌>>=◌, attempt}
use go_identity_service.World.Rules.{pure-ok}
use go_identity_service.User.Model.{User, UserResponse, role_admin, to_response}
use go_identity_service.User.Service.{get_user}
use go_identity_service.Auth.Model.{Claims}
use go_identity_service.Auth.Token.{TokenManager}
use go_identity_service.Auth.Access.Safety.{Presented}
use go_identity_service.Http.Response.{
  Response, json, user_body, handle_error-user_body, send_error, send_validation_error, respond,
}
use go_identity_service.Http.Users.{Handler, parse_id, with_id, handle_get_user_by_id}
use go_identity_service.Http.Routes as Routes
use go_identity_service.Http.Routes.{path_int64_param, serve_user_request}
use go_identity_service.Http.Routes.Guards.{
  Allowed, admin, own_get, Decision, let_through, turned_away, serve_user_request-Decision,
}

-- The guard and the handler read the same number from a path.
same_id :
    (raw : Text) (id own : ℤ)
    → parse_int64 raw ≡ some id
    → path_int64_param raw ≡ some own
    → id ≡ own
unfolding path_int64_param
same_id raw id own h p = let q = rw (trim_space-parse_int64 raw h, h) at p in ground (arith, q)

module _ (x : External) (tokens : TokenManager) (h : Handler) where
  -- The record of a user that GetUser gave.
  pub record Shown (id : ℤ) (v : World) (r : Response) (w' : World) : Type 0 where
    pub found : User
    pub got : get_user x h.service id v ≡ (ok found, w')
    pub shows : r ≡ json 200 (user_body (to_response found))

  answered :
      (id : ℤ) (v : World) (o : Result User) (v' : World) {r : Response} {w' : World}
      {b : UserResponse}
      → get_user x h.service id v ≡ (o, v')
      → respond (λ u. json 200 (user_body (to_response u))) o v' ≡ (ok r, w')
      → r.body ≡ user_body b
      → Shown id v r w'
  answered id v (ok found) v' p e k =
      let (is_r, is_w) = pure-ok _ v' e in
      record { found = found; got = p ∙ ap (λ (y : World). (ok found, y)) is_w; shows = sym is_r }
  answered id v (err e) v' p q k =
      absurd (handle_error-user_body e (ap (λ (y : Response). y.body) (pure-ok _ v' q).0 ∙ k))

  -- What the handler shows is the record under the id in the path.
  handled :
      (raw : Text) (o : Option ℤ) (v : World) {r : Response} {w' : World} {b : UserResponse}
      → with_id o
          (λ id.
            attempt (get_user x h.service id)
            >>= respond (λ u. json 200 (user_body (to_response u))))
          v
        ≡ (ok r, w')
      → r.body ≡ user_body b
      → (id : ℤ) × (o ≡ some id) × Shown id v r w'
  unfolding ◌>>=◌ attempt send_validation_error
  handled raw none v e k =
      let (is_r, is_w) = pure-ok _ v e in let q = ap (λ (y : Response). y.body) is_r ∙ k in cc
  handled raw (some id) v e k =
      (id, refl, answered id v (get_user x h.service id v).0 (get_user x h.service id v).1 refl e k)

  -- When GET /users/{id} answers with a user, the request came with a bearer token that the JWT library
  -- accepts, the user is what GetUser gave for some id, from the tables as they were, and the token's
  -- claims are an administrator's or those of the user with this very id.
  pub get_user_own :
      (authorization raw : Text) (w : World) {r : Response} {w' : World} {b : UserResponse}
      → serve_user_request x tokens h authorization (Routes.get_user raw) w ≡ (ok r, w')
      → r.body ≡ user_body b
      → (claims : Claims) × (id : ℤ) × (v : World) × Presented x tokens authorization claims
        × (v.tables ≡ w.tables)
        × Shown id v r w'
        × ((claims.role ≡ role_admin) ⊎ (id ≡ claims.user_id))
  unfolding handle_get_user_by_id parse_id
  get_user_own authorization raw w {r} {w'} {b} e k =
      decided (serve_user_request-Decision x tokens h authorization (Routes.get_user raw) w)
    where
      who :
          (claims : Claims) (id : ℤ)
          → Allowed claims (Routes.get_user raw)
          → parse_int64 raw ≡ some id
          → (claims.role ≡ role_admin) ⊎ (id ≡ claims.user_id)
      who claims id (admin p) q = inl p
      who claims id (own_get _ p) q = inr (same_id raw id claims.user_id q p)

      decided :
          Decision x tokens h authorization
            (Routes.get_user raw)
            w
            (serve_user_request x tokens h authorization (Routes.get_user raw) w)
          → (claims : Claims) × (id : ℤ) × (v : World) × Presented x tokens authorization claims
            × (v.tables ≡ w.tables)
            × Shown id v r w'
            × ((claims.role ≡ role_admin) ⊎ (id ≡ claims.user_id))
      decided (let_through claims v shown allowed same p) =
          let (id, q, s) = handled raw (parse_int64 raw) v (sym p ∙ e) k in
          (claims, id, v, shown, same, s, who claims id allowed q)
      decided (turned_away status code message refusal p same) =
          absurd (unfold send_error in ground (arith, p, e, k))

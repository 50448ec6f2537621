-- ===== src/Http/Routes/Guards.antt =====
-- Which requests get past the guards of the users' routes.
use go_identity_service.Base.{
  ℕ, Text, codes, str_eq, String, ◌≡◌, refl, inl, inr, true, any, some, [], ◌∷◌, arith, str_eq_iff,
}
use go_identity_service.Apperror.{Result, ok, err}
use go_identity_service.External.{External}
use go_identity_service.World.{World, ◌>>=◌, continue, pure}
use go_identity_service.User.Model.{role_admin}
use go_identity_service.User.Service.{UpdateUserInput}
use go_identity_service.Auth.Model.{Claims}
use go_identity_service.Auth.Token.{TokenManager}
use go_identity_service.Auth.Access.{Outcome, served, principal_of}
use go_identity_service.Auth.Access.Safety.{Presented}
use go_identity_service.Auth.Access.Cases.{require_role_cases, require_self_or_role_cases}
use go_identity_service.Http.Response.{Response, Reading, send_error}
use go_identity_service.Http.Users.{Handler}
use go_identity_service.Http.Routes.{
  UserRequest, get_users, get_user_by_email, delete_user, get_user, put_user, post_user,
  post_user_with_profile, path_int64_param, as_next, require_admin, require_self_or_admin, handler,
  serve_user_request, response_of,
}

-- Administrators may do everything, a user may read and change itself.
pub data Allowed (claims : Claims) : UserRequest → Type 0 where
  admin : {req : UserRequest} → claims.role ≡ role_admin → Allowed claims req
  own_get : (id : Text) → path_int64_param id ≡ some claims.user_id → Allowed claims (get_user id)
  own_put :
      (id : Text) (body : Reading UpdateUserInput)
      → path_int64_param id ≡ some claims.user_id
      → Allowed claims (put_user id body)

pub data IsRefusal : ℕ → Type 0 where
  unauthorized : IsRefusal 401
  forbidden : IsRefusal 403
  invalid_path : IsRefusal 400

-- The response is written behind the verdict of the middleware.
abbrev pub written : Result (Outcome Response) × World → Result Response × World
written (r, v) = continue r (λ outcome. pure (response_of outcome)) v

pub written-as_next :
    (r : Result Response) (v : World)
    → ◌≡◌ {A = Result Response × World} (written (continue r (λ a. pure (served a)) v)) (r, v)
unfolding pure
written-as_next (ok a) v = refl
written-as_next (err e) v = refl

module _ (x : External) (tokens : TokenManager) (h : Handler) (authorization : Text)
    (req : UserRequest) (w : World) where
  -- The handler ran, for a token whose claims allow the request, or the request was turned away.
  pub data Decision (r : Result Response × World) : Type 0 where
    let_through :
        (claims : Claims) (v : World)
        → Presented x tokens authorization claims
        → Allowed claims req
        → v.tables ≡ w.tables
        → r ≡ handler x tokens h req v
        → Decision r
    turned_away :
        (status : ℕ) (code message : String)
        → IsRefusal status
        → r.0 ≡ ok (send_error status code (codes message))
        → r.1.tables ≡ w.tables
        → Decision r

  by_admin :
      (claims : Claims) → any (str_eq claims.role) (role_admin ∷ []) ≡ true → Allowed claims req
  unfolding any
  by_admin claims p = admin ((str_eq_iff _ _).0 (ground (arith, p)))

  passed :
      (claims : Claims) (v : World)
      → Presented x tokens authorization claims
      → v.tables ≡ w.tables
      → Allowed claims req
      → Decision (written (as_next (handler x tokens h req) (principal_of claims) v))
  unfolding ◌>>=◌
  passed claims v shown same allowed =
      let_through claims v shown allowed same
        (written-as_next (handler x tokens h req v).0 (handler x tokens h req v).1)

  by_role : Decision (written (require_admin x tokens authorization (handler x tokens h req) w))
  unfolding require_admin pure
  by_role =
      require_role_cases x tokens (λ o. Decision (written o)) authorization
        (as_next (handler x tokens h req)) w
        (λ v same. turned_away 401 "unauthorized" "Unauthorized" unauthorized refl same)
        (λ v same. turned_away 403 "forbidden" "Forbidden" forbidden refl same) (role_admin ∷ [])
        (λ claims v shown same held. passed claims v shown same (by_admin claims held))

  by_owner :
      (raw : Text)
      → ((claims : Claims) → path_int64_param raw ≡ some claims.user_id → Allowed claims req)
      → Decision
          (written (require_self_or_admin x tokens raw authorization (handler x tokens h req) w))
  unfolding require_self_or_admin pure
  by_owner raw own =
      require_self_or_role_cases x tokens (λ o. Decision (written o)) authorization
        (as_next (handler x tokens h req)) w
        (λ v same. turned_away 401 "unauthorized" "Unauthorized" unauthorized refl same)
        (λ v same. turned_away 403 "forbidden" "Forbidden" forbidden refl same)
        (path_int64_param raw) (role_admin ∷ [])
        (λ v same.
          turned_away 400 "invalid_path_param" "Invalid path parameter" invalid_path refl same)
        (λ claims v shown same held.
          passed claims v shown same
            (elim held [ inl role ↦ by_admin claims role | inr owner ↦ own claims owner ]))

module _ (x : External) (tokens : TokenManager) (h : Handler) (authorization : Text) where
  -- A request to a users' route either reaches its handler, whose response it gets, and then it came
  -- with a bearer token that the JWT library accepts and whose claims are an administrator's, or those
  -- of the user whose id is in the path of GET or PUT /users/{id}; or it is answered 401, 403 or 400 and
  -- no table changes.
  pub serve_user_request-Decision :
      (req : UserRequest) (w : World)
      → Decision x tokens h authorization req w (serve_user_request x tokens h authorization req w)
  unfolding serve_user_request ◌>>=◌
  serve_user_request-Decision (get_users q) w = by_role x tokens h authorization (get_users q) w
  serve_user_request-Decision (get_user_by_email e) w =
      by_role x tokens h authorization (get_user_by_email e) w
  serve_user_request-Decision (delete_user id) w =
      by_role x tokens h authorization (delete_user id) w
  serve_user_request-Decision (get_user id) w =
      by_owner x tokens h authorization (get_user id) w id (λ claims own. own_get id own)
  serve_user_request-Decision (put_user id body) w =
      by_owner x tokens h authorization (put_user id body) w id (λ claims own. own_put id body own)
  serve_user_request-Decision (post_user body) w =
      by_role x tokens h authorization (post_user body) w
  serve_user_request-Decision (post_user_with_profile body) w =
      by_role x tokens h authorization (post_user_with_profile body) w

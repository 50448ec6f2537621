-- ===== src/Grpc/Users/Agreement.antt =====
-- GetUser of the gRPC API and GET /users/{id} of the HTTP API show the same users to the same tokens.
use go_identity_service.Base.{
  ℕ, ℤ, pos, int_eq, int_leb, Text, codes, is_empty, trim_space, cut_prefix, parse_int64,
  trim_space-parse_int64, str_eq, ◌≡◌, refl, ap, ◌∙◌, ◌⊎◌, inl, inr, false, any, Bool-cases, Option,
  none, some, [], ◌∷◌, if◌then◌else◌,
}
use go_identity_service.Apperror.{Result, ok, err}
use go_identity_service.External.{External}
use go_identity_service.World.{World, M, ◌>>=◌, pure, attempt}
use go_identity_service.World.Rules.{pair_path}
use go_identity_service.User.Model.{User, UserResponse, role_admin, role_is_valid, to_response}
use go_identity_service.User.Service as Users
use go_identity_service.Auth.Model.{Claims, Principal}
use go_identity_service.Auth.Token
use go_identity_service.Auth.Token.{TokenManager}
use go_identity_service.Auth.Access.{
  Outcome, served, principal_of, bearer, authenticated, with_bearer, unauthorized, forbidden,
  self_only, require_auth,
}
use go_identity_service.Auth.Access as Access
use go_identity_service.Auth.Access.Safety.{parse-ok}
use go_identity_service.Http.Response.{
  Response, Body, no_body, user_body, page_body, me_body, user_with_profile_body, auth_body,
  error_body, validation_body, json, handle_error, handle_error-user_body, send_error, respond,
}
use go_identity_service.Http.Users.{Handler, parse_id, handle_get_user_by_id}
use go_identity_service.Http.Routes as Routes
use go_identity_service.Http.Routes.{
  path_int64_param, require_self_or_admin, serve_user_request, as_next, response_of,
}
use go_identity_service.Http.Routes.Guards.{written, written-as_next}
use go_identity_service.Grpc.Status.{Reply, replied, failed_with, status_error, unauthenticated}
use go_identity_service.Grpc.Authz.{require_self_or_role}
use go_identity_service.Grpc.Interceptor.{unary, authorization_header, with_claims, with_token}
use go_identity_service.Grpc.Users.{ProtoUser, user_to_proto, get_user, reply_with}

-- The user that a response holds, and the user that a reply holds, in one form.
abbrev pub shown : Body → Option ProtoUser
shown (user_body u) = some (record {
  id = u.id;
  name = u.name;
  email = u.email;
  age = u.age;
  role = u.role;
  created_at = u.created_at;
  updated_at = u.updated_at;
})
shown _ = none

abbrev pub shown_http : Result Response × World → Option ProtoUser × World
shown_http (ok r, w) = (shown r.body, w)
shown_http (err e, w) = (none, w)

abbrev pub shown_grpc : Result (Reply ProtoUser) × World → Option ProtoUser × World
shown_grpc (ok (replied u), w) = (some u, w)
shown_grpc (ok (failed_with s), w) = (none, w)
shown_grpc (err e, w) = (none, w)

not_shown : (b : Body) → ((u : UserResponse) → b ≡ user_body u → ⊥) → shown b ≡ none
not_shown (user_body u) n = absurd (n u refl)
not_shown no_body n = refl
not_shown (page_body p) n = refl
not_shown (me_body u) n = refl
not_shown (user_with_profile_body u) n = refl
not_shown (auth_body a) n = refl
not_shown (error_body c m) n = refl
not_shown (validation_body fs) n = refl

module _ (x : External) (tokens : TokenManager) (h : Handler) (raw_id : Text) (id : ℤ)
    (is_id : parse_int64 raw_id ≡ some id) (is_positive : int_leb id (pos 0) ≡ false) where
  abbrev http_next : M Response
  http_next = handle_get_user_by_id x h raw_id

  abbrev http_check : Principal → M (Outcome Response)
  http_check p =
      if any (str_eq p.role) (role_admin ∷ [])
      then as_next http_next p
      else self_only (path_int64_param raw_id) p (as_next http_next p)

  abbrev grpc_check : Option Principal → M (Reply ProtoUser)
  grpc_check context = get_user x h.service context id

  path_id : path_int64_param raw_id ≡ some id
  unfolding path_int64_param parse_int64
  path_id = rw (trim_space-parse_int64 raw_id is_id, is_id, is_positive) (not_empty raw_id is_id)
    where
      not_empty :
          (t : Text) → parse_int64 t ≡ some id → (if is_empty t then none else some id) ≡ some id
      not_empty [] p = p
      not_empty (c ∷ t) p = refl

  found :
      (o : Result User) (v : World)
      → shown_http (respond (λ u. json 200 (user_body (to_response u))) o v)
        ≡ shown_grpc (reply_with user_to_proto o v)
  unfolding pure to_response user_to_proto
  found (ok u) v = refl
  found (err e) v =
      ap (λ o. (o, v)) (not_shown (handle_error e).body (λ u p. handle_error-user_body e p))

  abbrev grpc_found : M (Reply ProtoUser)
  grpc_found = attempt (Users.get_user x h.service id) >>= reply_with user_to_proto

  handled : (v : World) → shown_http (http_next v) ≡ shown_grpc (grpc_found v)
  unfolding handle_get_user_by_id parse_id ◌>>=◌ attempt
  handled v =
      rw is_id (found (Users.get_user x h.service id v).0 (Users.get_user x h.service id v).1)

  let_through :
      (p : Principal) (v : World)
      → shown_http (written (as_next http_next p v)) ≡ shown_grpc (grpc_found v)
  unfolding ◌>>=◌
  let_through p v = ap shown_http (written-as_next (http_next v).0 (http_next v).1) ∙ handled v

  checked :
      (p : Principal) (v : World)
      → shown_http (written (http_check p v)) ≡ shown_grpc (grpc_check (some p) v)
  unfolding get_user require_self_or_role pure send_error
  checked p v = elim (Bool-cases (any (str_eq p.role) (role_admin ∷ []))) [
    | inl held ↦ rw (held, is_positive) (let_through p v)
    | inr miss ↦ elim (Bool-cases (int_eq p.user_id id)) [
      | inl own ↦ rw (miss, path_id, own, is_positive) (let_through p v)
      | inr other ↦ rw (miss, path_id, other, is_positive) refl
    ]
  ]

  abbrev no_such_role : Result (Reply ProtoUser)
  no_such_role = ok (failed_with (status_error unauthenticated "invalid token role"))

  -- The token is accepted with a role that there is not, and the outcome is that of the refusal.
  abbrev BadRole : Text → Result (Reply ProtoUser) → Type 0
  BadRole token reply =
      (now : ℕ) × (claims : Claims) × (x.parse tokens.secret tokens.issuer now token ≡ some claims)
      × (role_is_valid claims.role ≡ false)
      × (reply ≡ no_such_role)

  -- The token of the header is one that the JWT library accepts, for claims with a role that there is
  -- not; and the gRPC API refuses it.
  pub record RoleRefused (raw : Text) (w : World) : Type 0 where
    pub rest : Text
    pub now : ℕ
    pub claims : Claims
    pub bearer : cut_prefix (codes "Bearer ") (trim_space raw) ≡ some rest
    pub accepted : x.parse tokens.secret tokens.issuer now (trim_space rest) ≡ some claims
    pub no_role : role_is_valid claims.role ≡ false
    pub refused : (unary x tokens (raw ∷ []) grpc_check w).0 ≡ no_such_role

  parsed :
      (token : Text) (w : World) (r : Result Claims)
      → (Token.parse x tokens token w).0 ≡ r
      → (shown_http (written (authenticated http_check r (Token.parse x tokens token w).1))
          ≡ shown_grpc (with_claims grpc_check r (Token.parse x tokens token w).1))
        ⊎ BadRole token (with_claims grpc_check r (Token.parse x tokens token w).1).0
  unfolding pure send_error
  parsed token w (err e) q = inl refl
  parsed token w (ok claims) q = elim (Bool-cases (role_is_valid claims.role)) [
    | inl valid ↦ rw valid (inl (checked (principal_of claims) (Token.parse x tokens token w).1))
    | inr other ↦
        let (now, accepted) =
          parse-ok x tokens token w (pair_path (Token.parse x tokens token w) q) in
        inr (now, claims, accepted, other, rw other refl)
  ]

  after_prefix :
      (o : Option Text) (w : World)
      → (shown_http (
            written (
              with_bearer
                (λ token. attempt (Token.parse x tokens token) >>= authenticated http_check)
                (elim o [
                  | none ↦ none
                  | some rest ↦ if is_empty (trim_space rest) then none else some (trim_space rest)
                ])
                w))
          ≡ shown_grpc (with_token x tokens grpc_check o w))
        ⊎ ((rest : Text) × (o ≡ some rest)
            × BadRole (trim_space rest) (with_token x tokens grpc_check o w).0)
  unfolding pure ◌>>=◌ attempt send_error
  after_prefix none w = inl refl
  after_prefix (some rest) w = elim (Bool-cases (is_empty (trim_space rest))) [
    | inl empty ↦ rw empty (inl refl)
    | inr token ↦ rw token (elim (parsed (trim_space rest) w _ refl) [
      | inl same ↦ inl same
      | inr bad ↦ inr (rest, refl, bad)
    ])
  ]

  -- For a header Authorization, and a path whose id is a positive number: GET /users/{id} and the
  -- method GetUser for this id show the same user, or none, and leave the same state; or the JWT library
  -- accepts the token with a role that is not valid,
  -- and the gRPC API refuses it as unauthenticated.
  pub get_user_agreement :
      (raw : Text) (w : World)
      → (shown_http (serve_user_request x tokens h raw (Routes.get_user raw_id) w)
          ≡ shown_grpc (unary x tokens (raw ∷ []) grpc_check w))
        ⊎ RoleRefused raw w
  unfolding serve_user_request unary Access.require_self_or_role require_auth bearer get_user
      require_self_or_role pure ◌>>=◌ authorization_header require_self_or_admin send_error
  get_user_agreement raw w = elim (Bool-cases (is_empty (trim_space raw))) [
    | inl empty ↦ rw (empty, is_positive) (inl refl)
    | inr header ↦ elim (after_prefix (cut_prefix (codes "Bearer ") (trim_space raw)) w) [
      | inl same ↦ inl (rw header same)
      | inr (rest, starts, bad) ↦
          let (now, claims, accepted, other, refused) = bad in
          inr (record {
            rest = rest;
            now = now;
            claims = claims;
            bearer = starts;
            accepted = accepted;
            no_role = other;
            refused = rw header refused;
          })
    ]
  ]

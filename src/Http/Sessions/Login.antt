-- ===== src/Http/Sessions/Login.antt =====
-- POST /auth/login: who gets tokens, and that the password is looked at behind the rate limit only.
use go_identity_service.Base.{
  ℕ, ℤ, Text, ◌≡◌, refl, sym, ap, ◌∙◌, Bool, true, false, Option, none, some, List, [], ◌∷◌,
}
use go_identity_service.Apperror.{Error, Result, ok, err}
use go_identity_service.External.{External}
use go_identity_service.World.{World, M, ◌>>=◌, attempt}
use go_identity_service.World.Rules.{pure-ok, pair_path}
use go_identity_service.Auth.Model.{AuthResponse}
use go_identity_service.Auth.Service.{LoginRequest, login}
use go_identity_service.Auth.Service.Login.{LoggedIn, login-LoggedIn}
use go_identity_service.Http.Response.{
  Response, Reading, readable, end_of_input, is_failure, json, auth_body, respond, handle_error,
}
use go_identity_service.Http.Response.Failures.{
  not_refused, is_failure-handle_error, decode_json-ok,
}
use go_identity_service.Http.Validation.{FieldError, struct, error_of, unless_error}
use go_identity_service.Http.Sessions.{
  Handler, RateLimiter, rate_limited, limited, if_allowed, login_key, handle_login,
}

-- The limiter let the request pass: there is none, or it said so.
abbrev pub Passed : Option RateLimiter → Text → ℤ → ℕ → World → World → Type 0
Passed none key limit window w v = v ≡ w
Passed (some allow) key limit window w v = allow key limit window w ≡ (ok true, v)

module _ {r : Response} {w' : World} (good : is_failure r.body ≡ false) where
  -- A check that reported nothing.
  valid :
      (o : Option Error) (next : M Response) (w : World)
      → unless_error o next w ≡ (ok r, w')
      → (o ≡ none) × (next w ≡ (ok r, w'))
  valid none next w h = (refl, h)
  valid (some e) next w h =
      absurd (not_refused (handle_error e) w (is_failure-handle_error e) h good)

  allowed-ok :
      (o : Result Bool) (next : M Response) (v : World)
      → if_allowed o next v ≡ (ok r, w')
      → (o ≡ ok true) × (next v ≡ (ok r, w'))
  unfolding rate_limited
  allowed-ok (ok true) next v h = (refl, h)
  allowed-ok (ok false) next v h = absurd (not_refused rate_limited v refl h good)
  allowed-ok (err e) next v h =
      absurd (not_refused (handle_error e) v (is_failure-handle_error e) h good)

  limited-ok :
      (l : Option RateLimiter) (key : Text) (limit : ℤ) (window : ℕ) (next : M Response) (w : World)
      → limited l key limit window next w ≡ (ok r, w')
      → (v : World) × Passed l key limit window w v × (next v ≡ (ok r, w'))
  unfolding ◌>>=◌ attempt
  limited-ok none key limit window next w h = (w, refl, h)
  limited-ok (some allow) key limit window next w h =
      let (said, k) = allowed-ok (allow key limit window w).0 next (allow key limit window w).1 h in
      ((allow key limit window w).1, pair_path (allow key limit window w) said, k)

error_of-none : (l : List FieldError) → error_of l ≡ none → l ≡ []
error_of-none [] h = refl
error_of-none (e ∷ es) h = cc

module _ (x : External) (h : Handler) where
  -- A request that was read and is valid, and the state in which the service was asked.
  pub record Admitted (remote_addr : Text) (body : Reading LoginRequest) (w v : World)
      (req : LoginRequest) : Type 0 where
    pub read : body ≡ readable req (some end_of_input)
    pub valid_fields : h.check_login req ≡ []
    pub passed :
        Passed h.limiter
          (login_key x h remote_addr req)
          h.rate_limit_config.login_limit
          h.rate_limit_config.login_window
          w
          v

  answered :
      (req : LoginRequest) (v : World) (o : Result AuthResponse) (v' : World) {r : Response}
      {w' : World}
      → is_failure r.body ≡ false
      → login x h.service req v ≡ (o, v')
      → respond (λ a. json 200 (auth_body a)) o v' ≡ (ok r, w')
      → (a : AuthResponse) × (r ≡ json 200 (auth_body a)) × (login x h.service req v ≡ (ok a, w'))
  answered req v (ok a) v' good p q =
      let (is_r, is_w) = pure-ok _ v' q in (a, sym is_r, p ∙ ap (λ (y : World). (ok a, y)) is_w)
  answered req v (err e) v' good p q =
      absurd (not_refused (handle_error e) v' (is_failure-handle_error e) q good)

  -- When POST /auth/login answers with no error, whatever the database and the limiter answer: the body
  -- was one JSON value whose fields the validator accepts; there is no limiter, or it allowed the request
  -- under the key of the address of the account and the address of the client; and the answer is 200 with
  -- tokens for the user under that address, whose password matched, issued behind that verdict.
  pub handle_login-LoggedIn :
      (remote_addr : Text) (body : Reading LoginRequest) (w : World) {r : Response} {w' : World}
      → handle_login x h remote_addr body w ≡ (ok r, w')
      → is_failure r.body ≡ false
      → (req : LoginRequest) × (v : World) × (a : AuthResponse) × Admitted remote_addr body w v req
        × (r ≡ json 200 (auth_body a))
        × LoggedIn x h.service req v.tables w'.tables a
  unfolding handle_login ◌>>=◌ attempt struct
  handle_login-LoggedIn remote_addr body w e good =
      let (req, read, e1) = decode_json-ok x body _ w e good in
      let (no_error, e2) = valid good (error_of (h.check_login req)) _ w e1 in
      let (v, passed, e3) =
        limited-ok good h.limiter (login_key x h remote_addr req) h.rate_limit_config.login_limit
          h.rate_limit_config.login_window _ w e2 in
      let (a, shows, logged_in) =
        answered req v (login x h.service req v).0 (login x h.service req v).1 good refl e3 in
      (
        req,
        v,
        a,
        record {
          read = read;
          valid_fields = error_of-none (h.check_login req) no_error;
          passed = passed;
        },
        shows,
        login-LoggedIn x h.service req v logged_in,
      )

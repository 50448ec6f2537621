-- ===== src/Auth/Service/Login.antt =====
-- Login of internal/auth/service.go.
use go_identity_service.Base.{
  Text, ◌≡◌, refl, sym, ap, subst, true, false, not, Option, none, some, [], find?, arith,
}
use go_identity_service.Apperror.{errors_is, new_invalid_credentials_error, Result, ok, err}
use go_identity_service.External.{External}
use go_identity_service.World.{World, Tables, ◌>>=◌, on_err, fail}
use go_identity_service.World.Rules.{bind-ok, map_err-ok, pure-ok, unless-ok, call_answered}
use go_identity_service.User.Model.{User}
use go_identity_service.User.Repository.{has_email, find_by_email, select_by_email, row}
use go_identity_service.User.Repository.Effects.{find_by_email-ok}
use go_identity_service.User.Validation.{normal_email}
use go_identity_service.Auth.Model.{AuthResponse}
use go_identity_service.Auth.Password
use go_identity_service.Auth.Service.{Service, LoginRequest, auth_response, login}
use go_identity_service.Auth.Service.Tokens.{Issued, issue_token_pair-ok}

select_row :
    (email : Text) (w : World) {o : Option User}
    → find? (has_email email) w.tables.users ≡ o
    → ◌≡◌ {A = Result User × World} (select_by_email email w) (row o w)
unfolding select_by_email
select_row email w h = rw h refl

module _ (x : External) (s : Service) where
  -- The user with the normalised address is in the tables, the password matches its hash, and a pair is
  -- issued to it.
  pub record LoggedIn (req : LoginRequest) (t t' : Tables) (r : AuthResponse) : Type 0 where
    pub usr : User
    pub pair : Text × Text
    pub found : find? (has_email (normal_email x req.email)) t.users ≡ some usr
    pub matches : x.bcrypt_compare usr.password_hash req.password ≡ true
    pub issued : Issued x s usr pair t t'
    pub response : r ≡ auth_response usr pair

  -- A login that succeeds, whatever the database answers, was for a user in the tables whose password
  -- hash matches the password, and it issued a token pair to that user and changed nothing else in the
  -- tables.
  pub login-LoggedIn :
      (req : LoginRequest) (w : World) {r : AuthResponse} {w' : World}
      → login x s req w ≡ (ok r, w')
      → LoggedIn req w.tables w'.tables r
  unfolding login Password.compare_hash
  login-LoggedIn req w h = bind-ok _ _ w h λ usr v p q.
      let (rest, is_v, found) = find_by_email-ok _ w (map_err-ok _ _ w p) in
      let (mismatch, q') =
        unless-ok (not (x.bcrypt_compare usr.password_hash req.password)) _ _ v q in
      bind-ok _ _ v q' λ pair v' p' q''.
        let (is_r, is_w) = pure-ok _ v' q'' in
        record {
          usr = usr;
          pair = pair;
          found = found;
          matches = ground (arith, mismatch);
          issued =
              subst (λ (y : Tables). Issued x s usr pair w.tables y)
                (ap (λ (y : World). y.tables) is_w)
                (subst (λ (y : Tables). Issued x s usr pair y v'.tables)
                  (ap (λ (y : World). y.tables) is_v) (issue_token_pair-ok x s usr v p'));
          response = sym is_r;
        }

  -- Nobody with the address, or somebody with another password.
  pub data IsWrong (req : LoginRequest) (t : Tables) : Type 0 where
    unknown : find? (has_email (normal_email x req.email)) t.users ≡ none → IsWrong req t
    mismatched :
        (usr : User)
        → find? (has_email (normal_email x req.email)) t.users ≡ some usr
        → x.bcrypt_compare usr.password_hash req.password ≡ false
        → IsWrong req t

  -- When no call fails, an unknown address and a wrong password are answered alike, with the same error,
  -- and nothing changes.
  pub login_wrong :
      (req : LoginRequest) (w : World)
      → w.answers ≡ []
      → IsWrong req w.tables
      → login x s req w ≡ (err new_invalid_credentials_error, w)
  unfolding login Password.compare_hash find_by_email errors_is ◌>>=◌ on_err fail
  login_wrong req w quiet (unknown h) =
      rw
        (
          call_answered (select_by_email (normal_email x req.email)) w quiet,
          select_row (normal_email x req.email) w h,
        )
        refl
  login_wrong req w quiet (mismatched usr h m) =
      rw
        (
          call_answered (select_by_email (normal_email x req.email)) w quiet,
          select_row (normal_email x req.email) w h,
          m,
        )
        refl

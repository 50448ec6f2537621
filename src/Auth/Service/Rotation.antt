-- ===== src/Auth/Service/Rotation.antt =====
-- Refresh of internal/auth/service.go: a refresh token is good for one rotation.
use go_identity_service.Auth.Service.Answers.{refresh_tx-Takes}
use go_identity_service.Base.{
  ℕ, ◌≤◌, ℤ, Text, ◌≡◌, refl, sym, ap, subst, ◌∙◌, Bool, true, false, not, some, [], ◌∷◌, find?,
  map, update_where, if◌then◌else◌, map_option, find?-append_some, find?-update_where, int_eq_iff,
  arith,
}
use go_identity_service.Apperror.{Error, ok, err}
use go_identity_service.External.{External}
use go_identity_service.World.{World, Tables, sql_now}
use go_identity_service.World.Rules.{bind-ok, map_err-ok, pure-ok, unless-ok, time_now-ok}
use go_identity_service.World.Transaction.{
  AllOrNothing, done, failed, unreported, TxOutcome-AllOrNothing,
}
use go_identity_service.User.Model.{User}
use go_identity_service.User.Repository.{has_id, without_hash}
use go_identity_service.User.Repository.Effects.{find_by_id-ok}
use go_identity_service.Auth.Model.{RefreshToken, AuthResponse, is_active, is_revoked}
use go_identity_service.Auth.Token
use go_identity_service.Auth.RefreshTokens.{has_hash, is_live, set_revoked}
use go_identity_service.Auth.RefreshTokens.Effects.{
  find_refresh_token_by_hash-ok, revoke_refresh_token-ok,
}
use go_identity_service.Auth.Tx.Outcome.{within_tx-TxOutcome}
use go_identity_service.Auth.Service.{Service, auth_response, refresh_tx, refresh}
use go_identity_service.Auth.Service.Tokens.{Issued, issue_token_pair-ok}

abbrev pub revoke_in : Tables → ℤ → ℕ → Tables
revoke_in t id at = record t {
  refresh_tokens = update_where (is_live id) (set_revoked at) t.refresh_tokens;
}

pub has_hash-set_revoked :
    (hash : Text) (at : ℕ) (t : RefreshToken) → has_hash hash (set_revoked at t) ≡ has_hash hash t
unfolding has_hash
has_hash-set_revoked hash at t = refl

pub is_revoked-set_revoked : (at : ℕ) (t : RefreshToken) → is_revoked (set_revoked at t) ≡ true
unfolding is_revoked
is_revoked-set_revoked at t = refl

-- An active token is among the rows that its revocation updates.
revoke_live_stored :
    (t : RefreshToken) (at now : ℕ)
    → is_active t now ≡ true
    → (if is_live t.id t then set_revoked at t else t) ≡ set_revoked at t
unfolding is_active is_live
revoke_live_stored t at now h = ground (arith, int_eq_iff t.id t.id)

module _ (x : External) (s : Service) where
  -- The presented token stood in the tables, active, for a user that exists; a pair is issued to that
  -- user, and the presented token is revoked.
  pub record Rotated (presented : Text) (start : ℕ) (t t' : Tables) (r : AuthResponse)
      : Type 0 where
    pub stored : RefreshToken
    pub usr : User
    pub pair : Text × Text
    pub issued_tables : Tables
    pub now : ℕ
    pub revoked_time : ℕ
    pub found : find? (has_hash (Token.refresh_hash x presented)) t.refresh_tokens ≡ some stored
    pub now_is_later : start ≤ now
    pub active : is_active stored now ≡ true
    pub owner : find? (has_id stored.user_id) (map without_hash t.users) ≡ some usr
    pub issued : Issued x s usr pair t issued_tables
    pub tables : t' ≡ revoke_in issued_tables stored.id revoked_time
    pub response : r ≡ auth_response usr pair

  not-false : (b : Bool) → not b ≡ false → b ≡ true
  not-false true h = refl
  not-false false h = cc

  refresh_tx-ok :
      (presented : Text) (w : World) {r : AuthResponse} {w' : World}
      → refresh_tx x s (Token.refresh_hash x presented) w ≡ (ok r, w')
      → Rotated presented w.clock w.tables w'.tables r
  unfolding refresh_tx
  refresh_tx-ok presented w {r} {w'} h = bind-ok _ _ w h λ stored v p q.
      let (rest, is_v, found) = find_refresh_token_by_hash-ok _ w (map_err-ok _ _ w p) in
      bind-ok _ _ v q λ now v1 p1 q1.
        let (same1, later, _) = time_now-ok v p1 in
        let (active, q2) = unless-ok _ _ _ v1 q1 in
        bind-ok _ _ v1 q2 λ usr v2 p2 q3.
          let (rest2, is_v2, owner) = find_by_id-ok _ v1 (map_err-ok _ _ v1 p2) in
          bind-ok _ _ v2 q3 λ pair v3 p3 q4. bind-ok _ _ v3 q4 λ unit v4 p4 q5.
            let revoked = revoke_refresh_token-ok _ v3 (map_err-ok _ _ v3 p4) in
            let (is_r, is_w) = pure-ok _ v4 q5 in
            let same : v1.tables ≡ w.tables = same1 ∙ ap (λ (y : World). y.tables) is_v in
            record {
              stored = stored;
              usr = usr;
              pair = pair;
              issued_tables = v3.tables;
              now = now;
              revoked_time = sql_now v3;
              found = found;
              now_is_later = subst (λ (y : World). y.clock ≤ now) is_v later;
              active = not-false _ active;
              owner =
                  ap (λ (y : Tables). find? (has_id stored.user_id) (map without_hash y.users))
                    (sym same)
                  ∙ owner;
              issued =
                  subst (λ (y : Tables). Issued x s usr pair y v3.tables)
                    (ap (λ (y : World). y.tables) is_v2 ∙ same) (issue_token_pair-ok x s usr v2 p3);
              tables = ap (λ (y : World). y.tables) (sym is_w) ∙ revoked.tables;
              response = sym is_r;
            }

  -- Refresh rotates a token that is in the tables, is neither revoked nor past its expiry at a time
  -- not before the call, and belongs to a user: it issues a pair to that user and revokes the token
  -- in one; or it fails and leaves every table as it was; or it fails with the rotation done when the
  -- last answer that it took was lost: a call took effect and its reply did not arrive.
  pub refresh_atomic :
      (presented : Text) (w : World)
      → AllOrNothing (Rotated presented w.clock) w (refresh x s presented w)
  unfolding refresh
  refresh_atomic presented w =
      TxOutcome-AllOrNothing (Rotated presented w.clock)
        (refresh_tx x s (Token.refresh_hash x presented)) w (refresh_tx-Takes x s _)
        (λ rest r v' e. refresh_tx-ok presented _ e) (within_tx-TxOutcome _ w)

  -- The token is in the tables and revoked.
  pub record IsSpent (presented : Text) (t : Tables) : Type 0 where
    pub stored : RefreshToken
    pub found : find? (has_hash (Token.refresh_hash x presented)) t.refresh_tokens ≡ some stored
    pub revoked : is_revoked stored ≡ true

  not-Rotated :
      (presented : Text) (start : ℕ) (t t' : Tables) (r : AuthResponse)
      → IsSpent presented t
      → Rotated presented start t t' r
      → ⊥
  unfolding is_active
  not-Rotated presented start t t' r spent rot =
      ground (arith, spent.found, spent.revoked, rot.found, rot.active)

  -- A revoked refresh token is refused, whatever the database answers, and nothing is written.
  pub refresh_spent :
      (presented : Text) (w : World)
      → IsSpent presented w.tables
      → (e : Error) × ((refresh x s presented w).0 ≡ err e)
        × ((refresh x s presented w).1.tables ≡ w.tables)
  refresh_spent presented w spent = go (refresh_atomic presented w)
    where
      go :
          AllOrNothing (Rotated presented w.clock) w (refresh x s presented w)
          → (e : Error) × ((refresh x s presented w).0 ≡ err e)
            × ((refresh x s presented w).1.tables ≡ w.tables)
      go (done a p d) = absurd (not-Rotated presented _ _ _ a spent d)
      go (failed e p t) = (e, p, t)
      go (unreported a e p l d) = absurd (not-Rotated presented _ _ _ a spent d)

  Rotated-IsSpent :
      (presented : Text) (start : ℕ) (t t' : Tables) (r : AuthResponse)
      → Rotated presented start t t' r
      → IsSpent presented t'
  Rotated-IsSpent presented start t t' r rot = subst (IsSpent presented) (sym rot.tables) (record {
    stored = set_revoked rot.revoked_time rot.stored;
    found =
        find?-update_where (has_hash hash) (is_live rot.stored.id) (set_revoked rot.revoked_time)
          (has_hash-set_revoked hash rot.revoked_time) rot.issued_tables.refresh_tokens
        ∙ ap (map_option revoke_live) kept
        ∙ ap some (revoke_live_stored rot.stored rot.revoked_time rot.now rot.active);
    revoked = is_revoked-set_revoked rot.revoked_time rot.stored;
  })
    where
      hash : Text
      hash = Token.refresh_hash x presented

      revoke_live : RefreshToken → RefreshToken
      revoke_live a = if is_live rot.stored.id a then set_revoked rot.revoked_time a else a

      kept : find? (has_hash hash) rot.issued_tables.refresh_tokens ≡ some rot.stored
      kept =
          ap (λ (y : Tables). find? (has_hash hash) y.refresh_tokens) rot.issued.tables
          ∙ find?-append_some (has_hash hash) t.refresh_tokens (rot.issued.token ∷ []) rot.stored
              rot.found

  -- Once a refresh token has been rotated, presenting it again fails, at any later time and whatever
  -- the database answers, as long as nobody else wrote to the tables; and it writes nothing.
  pub refresh_once :
      (presented : Text) (w later : World) {r : AuthResponse}
      → (refresh x s presented w).0 ≡ ok r
      → later.tables ≡ (refresh x s presented w).1.tables
      → (e : Error) × ((refresh x s presented later).0 ≡ err e)
        × ((refresh x s presented later).1.tables ≡ later.tables)
  refresh_once presented w later {r} h same =
      refresh_spent presented later
        (subst (IsSpent presented) (sym same) (go (refresh_atomic presented w)))
    where
      go :
          AllOrNothing (Rotated presented w.clock) w (refresh x s presented w)
          → IsSpent presented (refresh x s presented w).1.tables
      go (done a p d) = Rotated-IsSpent presented _ _ _ a d
      go (failed e p t) = cc
      go (unreported a e p l d) = Rotated-IsSpent presented _ _ _ a d

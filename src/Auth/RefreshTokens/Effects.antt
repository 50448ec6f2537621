-- ===== src/Auth/RefreshTokens/Effects.antt =====
-- What the methods of the refresh token repository wrote, when they returned.
use go_identity_service.Base.{
  ℤ, pos, Text, ◌≡◌, ◌∙◌, Bool, true, false, Option, none, some, List, [], ◌∷◌, ◌++◌, any, find?,
  update_where, inl, inr, arith, if◌then◌else◌, Bool-cases, int_eq,
}
use go_identity_service.Apperror.{sentinel, refresh_token_not_found, ok}
use go_identity_service.World.{World, Tables, Answer, pure, fail, sql_now}
use go_identity_service.World.Rules.{map_err-ok, call-ok, bind-ok, fail-ok}
use go_identity_service.User.Repository.{row, has_id}
use go_identity_service.Auth.Model.{RefreshToken}
use go_identity_service.Auth.RefreshTokens.{
  has_hash, is_live, set_revoked, insert_token, create_refresh_token, select_token,
  find_refresh_token_by_hash, update_revoked, revoke_refresh_token,
}

-- The row that CreateRefreshToken inserts.
abbrev pub token_row : RefreshToken → World → RefreshToken
token_row t w = record t {
  id = pos w.sequences.token_id;
  revoked_at = none;
  created_at = sql_now w;
}

abbrev pub with_token : Tables → RefreshToken → Tables
with_token t r = record t { refresh_tokens = t.refresh_tokens ++ r ∷ [] }

pub record TokenCreated (t : RefreshToken) (w : World) (w' : World) : Type 0 where
  pub free : any (has_hash t.token_hash) w.tables.refresh_tokens ≡ false
  pub owned : any (has_id t.user_id) w.tables.users ≡ true
  pub tables : w'.tables ≡ with_token w.tables (token_row t w)
  pub clock : w'.clock ≡ w.clock

insert_token-ok :
    (t : RefreshToken) (w : World) {c : RefreshToken} {w' : World}
    → insert_token t w ≡ (ok c, w')
    → TokenCreated t w w'
unfolding insert_token
insert_token-ok t w h = ground arith

pub create_refresh_token-ok :
    (t : RefreshToken) (w : World) {c : RefreshToken} {w' : World}
    → create_refresh_token t w ≡ (ok c, w')
    → TokenCreated t w w'
unfolding create_refresh_token
create_refresh_token-ok t w h =
    let (rest, p) = call-ok (insert_token t) w (map_err-ok _ _ w h) in
    let k = insert_token-ok t (record w { answers = rest }) p in
    record { free = k.free; owned = k.owned; tables = k.tables; clock = k.clock }

row-ok :
    {A : Type 0} (o : Option A) (w : World) {a : A} {w' : World}
    → row o w ≡ (ok a, w')
    → (o ≡ some a) × (w' ≡ w)
row-ok none w h = cc
row-ok (some a) w h = ground arith

pub find_refresh_token_by_hash-ok :
    (hash : Text) (w : World) {t : RefreshToken} {w' : World}
    → find_refresh_token_by_hash hash w ≡ (ok t, w')
    → (rest : List Answer) × (w' ≡ record w { answers = rest })
      × (find? (has_hash hash) w.tables.refresh_tokens ≡ some t)
unfolding find_refresh_token_by_hash
find_refresh_token_by_hash-ok hash w h = bind-ok _ _ w h λ token v p q.
    let (rest, e) = call-ok (select_token hash) w (map_err-ok _ _ w p) in
    let (found, same) = row-ok _ _ (unfold select_token in e) in
    let (is_t, is_w) = checked token v q in (rest, is_w ∙ same, rw (← is_t) found)
  where
    checked :
        (token : RefreshToken) (v : World) {t : RefreshToken} {w' : World}
        → (if int_eq token.id (pos 0) then fail (sentinel refresh_token_not_found) else pure token)
            v
          ≡ (ok t, w')
        → (token ≡ t) × (w' ≡ v)
    checked token v e = elim (Bool-cases (int_eq token.id (pos 0))) [
      | inl zero_id ↦ absurd (fail-ok _ v (rw zero_id at e))
      | inr good ↦ unfold pure in ground arith
    ]

-- Revocation of a token that was live: its row has a time of revocation, and nothing else changes.
pub record Revoked (id : ℤ) (w : World) (w' : World) : Type 0 where
  pub live : any (is_live id) w.tables.refresh_tokens ≡ true
  pub tables : w'.tables ≡ record w.tables {
    refresh_tokens = update_where (is_live id) (set_revoked (sql_now w)) w.tables.refresh_tokens;
  }

pub revoke_refresh_token-ok :
    (id : ℤ) (w : World) {w' : World} → revoke_refresh_token id w ≡ (ok tt, w') → Revoked id w w'
unfolding revoke_refresh_token
revoke_refresh_token-ok id w h = bind-ok _ _ w h λ affected v p q.
    let (rest, e) = call-ok (update_revoked id) w (map_err-ok _ _ w p) in effect rest affected v e q
  where
    effect :
        (rest : List Answer) (affected : Bool) (v : World) {w' : World}
        → update_revoked id (record w { answers = rest }) ≡ (ok affected, v)
        → (if affected then pure tt else fail (sentinel refresh_token_not_found)) v ≡ (ok tt, w')
        → Revoked id w w'
    effect rest true v e q = unfold update_revoked pure in ground arith
    effect rest false v e q = absurd (fail-ok _ v q)

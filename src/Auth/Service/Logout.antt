-- ===== src/Auth/Service/Logout.antt =====
-- Logout of internal/auth/service.go: the refresh token is of no use afterwards.
use go_identity_service.Base.{
  ℕ, pos, int_eq, Text, ◌≡◌, refl, sym, ap, subst, ◌∙◌, ◌⊎◌, false, Bool-cases, inl, inr, some,
  List, find?, map_option, find?-update_where, int_eq_iff, if◌then◌else◌, arith,
}
use go_identity_service.Apperror.{Error, wrapped, external, errors_is, Result, ok, err}
use go_identity_service.External.{External}
use go_identity_service.World.{World, M, Answer, ◌>>=◌, on_err, map_err, fail, pure, sql_now}
use go_identity_service.World.Rules.{map_err-ok, pair_path, call_cases}
use go_identity_service.Auth.Model.{RefreshToken, is_revoked}
use go_identity_service.Auth.Token
use go_identity_service.Auth.RefreshTokens.{
  has_hash, is_live, set_revoked, select_token, find_refresh_token_by_hash, revoke_refresh_token,
}
use go_identity_service.Auth.RefreshTokens.Effects.{revoke_refresh_token-ok}
use go_identity_service.Auth.Service.{Service, logout, logout_found, refresh}
use go_identity_service.Auth.Service.Rotation.{
  IsSpent, refresh_spent, has_hash-set_revoked, is_revoked-set_revoked,
}

module _ (hash : Text) (w : World) (stored : RefreshToken)
    (found : find? (has_hash hash) w.tables.refresh_tokens ≡ some stored)
    (numbered : int_eq stored.id (pos 0) ≡ false) where
  -- The search finds the token, or fails in a way that is no "not found".
  search_cases :
      ((rest : List Answer) × ◌≡◌ {A = Result RefreshToken × World}
          (find_refresh_token_by_hash hash w)
          (ok stored, record w { answers = rest }))
      ⊎ ((find_refresh_token_by_hash hash w).0 ≡ err (wrapped "find refresh token" external))
  unfolding find_refresh_token_by_hash ◌>>=◌ on_err fail pure errors_is select_token
  search_cases = elim (call_cases (select_token hash) w) [
    | inl (rest, p) ↦ inl (rest, rw (p, found, numbered) refl)
    | inr p ↦ inr (rw p refl)
  ]

revoke_stored :
    (t : RefreshToken) (at : ℕ)
    → is_revoked t ≡ false
    → (if is_live t.id t then set_revoked at t else t) ≡ set_revoked at t
unfolding is_live
revoke_stored t at h = ground (arith, int_eq_iff t.id t.id)

refused : {e : Error} → ◌≡◌ {A = Result (Unit {0})} (ok tt) (err e) → ⊥
refused q = cc

module _ (x : External) (s : Service) where
  logout_found-IsSpent :
      (presented : Text) (stored : RefreshToken) (v : World)
      → find? (has_hash (Token.refresh_hash x presented)) v.tables.refresh_tokens ≡ some stored
      → (logout_found x s (some stored) v).0 ≡ ok tt
      → IsSpent x s presented (logout_found x s (some stored) v).1.tables
  unfolding logout_found pure
  logout_found-IsSpent presented stored v found h = elim (Bool-cases (is_revoked stored)) [
    | inl revoked ↦ rw revoked (record { stored = stored; found = found; revoked = revoked })
    | inr live ↦ rw live (revoked_now live (rw live at h))
  ]
    where
      revoke : M (Unit {0})
      revoke = map_err (wrapped "revoke refresh token") (revoke_refresh_token stored.id)

      revoke_live : ℕ → RefreshToken → RefreshToken
      revoke_live at a = if is_live stored.id a then set_revoked at a else a

      revoked_now :
          is_revoked stored ≡ false
          → (revoke v).0 ≡ ok tt
          → IsSpent x s presented (revoke v).1.tables
      revoked_now live e =
          let k = revoke_refresh_token-ok stored.id v (map_err-ok _ _ v (pair_path (revoke v) e)) in
          subst (IsSpent x s presented) (sym k.tables) (record {
            stored = set_revoked (sql_now v) stored;
            found =
                find?-update_where (has_hash (Token.refresh_hash x presented)) (is_live stored.id)
                  (set_revoked (sql_now v))
                  (has_hash-set_revoked (Token.refresh_hash x presented) (sql_now v))
                  v.tables.refresh_tokens
                ∙ ap (map_option (revoke_live (sql_now v))) found
                ∙ ap some (revoke_stored stored (sql_now v) live);
            revoked = is_revoked-set_revoked (sql_now v) stored;
          })

  -- After a logout that succeeded with a token that was in the tables under an id other than 0, presenting the token for a refresh
  -- fails, at any later time and whatever the database answers, as long as nobody else wrote to the
  -- tables; and it writes nothing.
  pub logout_ends :
      (presented : Text) (w later : World) (stored : RefreshToken)
      → find? (has_hash (Token.refresh_hash x presented)) w.tables.refresh_tokens ≡ some stored
      → int_eq stored.id (pos 0) ≡ false
      → (logout x s presented w).0 ≡ ok tt
      → later.tables ≡ (logout x s presented w).1.tables
      → (e : Error) × ((refresh x s presented later).0 ≡ err e)
        × ((refresh x s presented later).1.tables ≡ later.tables)
  unfolding logout ◌>>=◌ on_err fail pure errors_is
  logout_ends presented w later stored found numbered h same =
      refresh_spent x s presented later (subst (IsSpent x s presented) (sym same) spent)
    where
      hash : Text
      hash = Token.refresh_hash x presented

      spent : IsSpent x s presented (logout x s presented w).1.tables
      spent = elim (search_cases hash w stored found numbered) [
        | inl (rest, p) ↦
            let v : World = record w { answers = rest } in
            let e : ◌≡◌ {A = Result (Unit {0}) × World} (logout x s presented w)
                (logout_found x s (some stored) v) =
              rw p refl in
            subst (λ (o : Result (Unit {0}) × World). IsSpent x s presented o.1.tables) (sym e)
              (logout_found-IsSpent presented stored v found
                (ap (λ (o : Result (Unit {0}) × World). o.0) (sym e) ∙ h))
        | inr p ↦
            let e : (logout x s presented w).0
                ≡ err (wrapped "find refresh token" (wrapped "find refresh token" external)) =
              rw p refl in
            absurd (refused (sym h ∙ e))
      ]

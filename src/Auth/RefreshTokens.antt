-- ===== src/Auth/RefreshTokens.antt =====
-- internal/auth/refresh_token_repository.go over the table of migrations/005.
pub mod Effects
use go_identity_service.Base.{
  ℕ, suc, ℤ, pos, int_eq, Text, text_eq, String, Bool, true, false, not, ◌&&◌, Option, none, some,
  List, [], ◌∷◌, ◌++◌, any, find?, update_where, if◌then◌else◌,
}
use go_identity_service.Apperror.{
  Error, sentinel, pg_error, wrapped, no_rows, refresh_token_not_found, errors_is, Result, ok, err,
}
use go_identity_service.World.{World, Tables, M, ◌>>=◌, pure, fail, map_err, call, sql_now}
use go_identity_service.User.Repository.{has_id, row}
use go_identity_service.Auth.Model.{RefreshToken, is_revoked}

unfoldable pub has_hash : Text → RefreshToken → Bool
has_hash hash t = text_eq t.token_hash hash

unfoldable pub has_token_id : ℤ → RefreshToken → Bool
has_token_id id t = int_eq t.id id

unfoldable pub insert_token : RefreshToken → M RefreshToken
unfolding has_hash has_id
insert_token t w =
    let id = w.sequences.token_id in
    let w' : World = record w { sequences = record w.sequences { token_id = suc id } } in
    let created : RefreshToken = record t {
      id = pos id;
      revoked_at = none;
      created_at = sql_now w;
    } in
    if any (has_hash t.token_hash) w.tables.refresh_tokens
    then (err (pg_error "23505"), w')
    else if not (any (has_id t.user_id) w.tables.users)
    then (err (pg_error "23503"), w')
    else (
      ok created,
      record w' {
        tables = record w.tables { refresh_tokens = w.tables.refresh_tokens ++ created ∷ [] };
      },
    )

unfoldable pub create_refresh_token : RefreshToken → M RefreshToken
unfolding insert_token
create_refresh_token t = map_err (wrapped "insert refresh token") (call (insert_token t))

unfoldable pub select_token : Text → M RefreshToken
unfolding has_hash
select_token hash w = row (find? (has_hash hash) w.tables.refresh_tokens) w

unfoldable pub find_refresh_token_by_hash : Text → M RefreshToken
unfolding select_token errors_is
find_refresh_token_by_hash hash = do
  token ←
      map_err
        (λ e.
          if errors_is e no_rows
          then sentinel refresh_token_not_found
          else wrapped "find refresh token" e)
        (call (select_token hash))
  if int_eq token.id (pos 0) then fail (sentinel refresh_token_not_found) else pure token

unfoldable pub is_live : ℤ → RefreshToken → Bool
unfolding has_token_id is_revoked
is_live id t = has_token_id id t && not (is_revoked t)

abbrev pub set_revoked : ℕ → RefreshToken → RefreshToken
set_revoked now t = record t { revoked_at = some now }

-- The result is RowsAffected.
unfoldable pub update_revoked : ℤ → M Bool
unfolding is_live
update_revoked id w =
    let tokens = w.tables.refresh_tokens in
    (
      ok (any (is_live id) tokens),
      record w {
        tables = record w.tables {
          refresh_tokens = update_where (is_live id) (set_revoked (sql_now w)) tokens;
        };
      },
    )

unfoldable pub revoke_refresh_token : ℤ → M (Unit {0})
unfolding update_revoked
revoke_refresh_token id = do
  affected ← map_err (wrapped "revoke refresh token") (call (update_revoked id))
  if affected then pure tt else fail (sentinel refresh_token_not_found)

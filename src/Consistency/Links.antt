-- ===== src/Consistency/Links.antt =====
-- The statements that write profiles, refresh tokens and outbox events.
use go_identity_service.Base.{
  ℕ, ℤ, int_eq, text_eq_iff, ◌≡◌, refl, sym, ap, ◌∙◌, inl, inr, true, false, Bool-cases, List, [],
  ◌∷◌, ◌++◌, any, if◌then◌else◌, IsMember-update_where, any-IsMember,
}
use go_identity_service.World.{World, Tables, sql_now}
use go_identity_service.World.Preserves.{Preserves}
use go_identity_service.User.Model.{Profile}
use go_identity_service.User.Repository.{has_id, insert_profile}
use go_identity_service.Auth.Model.{RefreshToken}
use go_identity_service.Auth.RefreshTokens.{
  has_hash, insert_token, update_revoked, is_live, set_revoked,
}
use go_identity_service.Outbox.Model.{Event}
use go_identity_service.Outbox.Repository.{content_is_valid, insert_event}
use go_identity_service.Consistency.{IsConsistent}
use go_identity_service.Consistency.Rows.{added_unique, added_all, true-false}

pub insert_profile-IsConsistent : (p : Profile) → Preserves IsConsistent (insert_profile p)
unfolding insert_profile
insert_profile-IsConsistent p = record { at = at }
  where
    with_profile :
        (w : World) (c : Profile)
        → IsConsistent w.tables
        → any (has_id c.user_id) w.tables.users ≡ true
        → IsConsistent (record w.tables { user_profiles = w.tables.user_profiles ++ c ∷ [] })
    with_profile w c h owned = record {
      emails = h.emails;
      roles = h.roles;
      profiles = added_all w.tables.user_profiles c h.profiles owned;
      tokens = h.tokens;
      hashes = h.hashes;
    }

    at : (w : World) → IsConsistent w.tables → IsConsistent (insert_profile p w).1.tables
    at w h = elim (Bool-cases (any (λ q. int_eq q.user_id p.user_id) w.tables.user_profiles)) [
      | inl taken ↦ rw taken h
      | inr free ↦ elim (Bool-cases (any (has_id p.user_id) w.tables.users)) [
        | inl owned ↦ rw (free, owned) (with_profile w _ h owned)
        | inr lost ↦ rw (free, lost) h
      ]
    ]

module _ (t : RefreshToken) (w : World) (h : IsConsistent w.tables) where
  with_token :
      (c : RefreshToken)
      → any (has_hash c.token_hash) w.tables.refresh_tokens ≡ false
      → any (has_id c.user_id) w.tables.users ≡ true
      → IsConsistent (record w.tables { refresh_tokens = w.tables.refresh_tokens ++ c ∷ [] })
  unfolding has_hash
  with_token c free owned = record {
    emails = h.emails;
    roles = h.roles;
    profiles = h.profiles;
    tokens = added_all w.tables.refresh_tokens c h.tokens owned;
    hashes =
        added_unique (λ (y : RefreshToken). y.token_hash) (λ (y : RefreshToken). y.id)
          w.tables.refresh_tokens c h.hashes
          (λ a m e.
            true-false
              (any-IsMember (has_hash c.token_hash) w.tables.refresh_tokens a m
                ((text_eq_iff a.token_hash c.token_hash).1 e))
              free);
  }

  insert_token-at : IsConsistent (insert_token t w).1.tables
  unfolding insert_token
  insert_token-at = elim (Bool-cases (any (has_hash t.token_hash) w.tables.refresh_tokens)) [
    | inl taken ↦ rw taken h
    | inr free ↦ elim (Bool-cases (any (has_id t.user_id) w.tables.users)) [
      | inl owned ↦ rw (free, owned) (with_token _ free owned)
      | inr lost ↦ rw (free, lost) h
    ]
  ]

pub insert_token-IsConsistent : (t : RefreshToken) → Preserves IsConsistent (insert_token t)
insert_token-IsConsistent t = record { at = λ w h. insert_token-at t w h }

-- A revocation changes neither the hash of a token nor whose it is.
same_token :
    (id : ℤ) (now : ℕ) (a : RefreshToken)
    → let b = if is_live id a then set_revoked now a else a in
      (b.token_hash ≡ a.token_hash) × (b.id ≡ a.id) × (b.user_id ≡ a.user_id)
same_token id now a = elim (Bool-cases (is_live id a)) [
  | inl live ↦ rw live (refl, refl, refl)
  | inr other ↦ rw other (refl, refl, refl)
]

pub update_revoked-IsConsistent : (id : ℤ) → Preserves IsConsistent (update_revoked id)
unfolding update_revoked
update_revoked-IsConsistent id = record {
  at = λ w h. record {
    emails = h.emails;
    roles = h.roles;
    profiles = h.profiles;
    tokens = λ r m.
        let (a, k, e) = IsMember-update_where _ _ _ r m in
        let (same_hash, same_id, same_user) = same_token id (sql_now w) a in
        rw (e, same_user) (h.tokens a k);
    hashes = λ r s m n same.
        let (a, k, e) = IsMember-update_where _ _ _ r m in
        let (b, l, f) = IsMember-update_where _ _ _ s n in
        let (hash_a, id_a, user_a) = same_token id (sql_now w) a in
        let (hash_b, id_b, user_b) = same_token id (sql_now w) b in
        ap (λ (y : RefreshToken). y.id) e
        ∙ id_a
        ∙ h.hashes a b k l (
            sym hash_a
            ∙ ap (λ (y : RefreshToken). y.token_hash) (sym e)
            ∙ same
            ∙ ap (λ (y : RefreshToken). y.token_hash) f
            ∙ hash_b)
        ∙ sym id_b
        ∙ ap (λ (y : RefreshToken). y.id) (sym f);
  };
}

pub insert_event-IsConsistent : (e : Event) → Preserves IsConsistent (insert_event e)
unfolding insert_event
insert_event-IsConsistent e = record { at = at }
  where
    with_events :
        {t : Tables} (events : List Event)
        → IsConsistent t
        → IsConsistent (record t { outbox_events = events })
    with_events events h = record {
      emails = h.emails;
      roles = h.roles;
      profiles = h.profiles;
      tokens = h.tokens;
      hashes = h.hashes;
    }

    at : (w : World) → IsConsistent w.tables → IsConsistent (insert_event e w).1.tables
    at w h = elim (Bool-cases (content_is_valid e)) [
      | inl valid ↦ rw valid (with_events _ h)
      | inr invalid ↦ rw invalid h
    ]

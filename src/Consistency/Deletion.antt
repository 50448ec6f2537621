-- ===== src/Consistency/Deletion.antt =====
-- DELETE FROM users, with its cascades.
use go_identity_service.Base.{
  ℤ, int_eq, int_eq_iff, ◌≡◌, refl, sym, ◌∙◌, inl, inr, Bool, true, false, Bool-cases, List, [],
  ◌∷◌, any, delete_where, IsMember-delete_where,
}
use go_identity_service.World.Preserves.{Preserves}
use go_identity_service.User.Model.{User}
use go_identity_service.User.Repository.{has_id, delete_user}
use go_identity_service.Consistency.{IsConsistent}
use go_identity_service.Consistency.Rows.{true-false, own_id}

module _ {A : Type 0} where
  -- A row that a test finds stays, if the rows that the test finds are not deleted.
  any-delete_where :
      (q p : A → Bool)
      → ((a : A) → q a ≡ true → p a ≡ false)
      → (xs : List A) → any q xs ≡ true
      → any q (delete_where p xs) ≡ true
  unfolding any delete_where
  any-delete_where q p apart [] h = h
  any-delete_where q p apart (x ∷ xs) h = elim (Bool-cases (q x)) [
    | inl held ↦ let kept = apart x held in rw (kept, held) refl
    | inr miss ↦
        let rest = any-delete_where q p apart xs (rw miss at h) in
        elim (Bool-cases (p x)) [ inl gone ↦ rw gone rest | inr kept ↦ rw (kept, miss) rest ]
  ]

not_deleted :
    (id other : ℤ)
    → int_eq other id ≡ false
    → (a : User) → has_id other a ≡ true
    → has_id id a ≡ false
not_deleted id other apart a h = elim (Bool-cases (has_id id a)) [
  | inl same ↦
      absurd
        (true-false ((int_eq_iff other id).1 (sym (own_id other a h) ∙ own_id id a same)) apart)
  | inr kept ↦ kept
]

pub delete_user-IsConsistent : (id : ℤ) → Preserves IsConsistent (delete_user id)
unfolding delete_user
delete_user-IsConsistent id = record {
  at = λ w h. record {
    emails = λ a b ma mb e.
        h.emails a b (IsMember-delete_where _ _ a ma).0 (IsMember-delete_where _ _ b mb).0 e;
    roles = λ a m. h.roles a (IsMember-delete_where _ _ a m).0;
    profiles = λ p m.
        let (k, apart) = IsMember-delete_where _ _ p m in
        any-delete_where (has_id p.user_id) (has_id id) (not_deleted id p.user_id apart)
          w.tables.users (h.profiles p k);
    tokens = λ r m.
        let (k, apart) = IsMember-delete_where _ _ r m in
        any-delete_where (has_id r.user_id) (has_id id) (not_deleted id r.user_id apart)
          w.tables.users (h.tokens r k);
    hashes = λ a b ma mb e.
        h.hashes a b (IsMember-delete_where _ _ a ma).0 (IsMember-delete_where _ _ b mb).0 e;
  };
}

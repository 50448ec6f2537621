-- ===== src/Consistency/Rows.antt =====
-- The statements that write to the tables, one by one.
use go_identity_service.Base.{
  ℤ, pos, int_eq_iff, Text, text_eq_iff, ◌≡◌, refl, sym, ap, ◌∙◌, subst, ◌⊎◌, inl, inr, Bool, true,
  false, not, ◌&&◌, Bool-cases, Option, none, some, List, [], ◌∷◌, ◌++◌, any, find?, update_where,
  if◌then◌else◌, IsMember, IsMember-cons, IsMember-append, IsMember-update_where, any-IsMember,
  any-append_left,
}
use go_identity_service.World.{World, Tables, sql_now}
use go_identity_service.World.Preserves.{Preserves}
use go_identity_service.User.Model.{User, role_is_valid}
use go_identity_service.User.Repository.{
  has_id, has_email, insert_user, set_columns, write_row, update_user,
}
use go_identity_service.Consistency.{IsConsistent}

module _ {A : Type 0} where
  -- A new row at the end of a table whose key it does not repeat.
  pub added_unique :
      {K : Type 0} (key : A → K) (id : A → ℤ) (xs : List A) (c : A)
      → ((a b : A) → IsMember a xs → IsMember b xs → key a ≡ key b → id a ≡ id b)
      → ((a : A) → IsMember a xs → key a ≡ key c → ⊥)
      → (a b : A) → IsMember a (xs ++ c ∷ [])
      → IsMember b (xs ++ c ∷ [])
      → key a ≡ key b
      → id a ≡ id b
  added_unique key id xs c old fresh a b ma mb same =
      go (IsMember-append xs (c ∷ []) a ma) (IsMember-append xs (c ∷ []) b mb)
    where
      last : {y : A} → IsMember y (c ∷ []) → y ≡ c
      last m = elim (IsMember-cons m) [ inl e ↦ e | inr n ↦ elim n [ ] ]

      go : IsMember a xs ⊎ IsMember a (c ∷ []) → IsMember b xs ⊎ IsMember b (c ∷ []) → id a ≡ id b
      go (inl x) (inl y) = old a b x y same
      go (inl x) (inr y) = absurd (fresh a x (same ∙ ap key (last y)))
      go (inr x) (inl y) = absurd (fresh b y (sym same ∙ ap key (last x)))
      go (inr x) (inr y) = ap id (last x ∙ sym (last y))

  -- What holds of the rows of a table and of a new one holds of all of them.
  pub added_all :
      {Q : A → Type 0} (xs : List A) (c : A)
      → ((a : A) → IsMember a xs → Q a)
      → Q c
      → (a : A) → IsMember a (xs ++ c ∷ [])
      → Q a
  added_all {Q} xs c old new a m = elim (IsMember-append xs (c ∷ []) a m) [
    | inl k ↦ old a k
    | inr k ↦ elim (IsMember-cons k) [ inl e ↦ subst Q (sym e) new | inr n ↦ elim n [ ] ]
  ]

pub has_email_at : (a : User) {email : Text} → a.email ≡ email → has_email email a ≡ true
unfolding has_email
has_email_at a {email} e = (text_eq_iff a.email email).1 e

pub true-false : {b : Bool} → b ≡ true → b ≡ false → ⊥
true-false p q = cc

-- The rows stay as they are but for a list of users that is longer.
module _ {t : Tables} (h : IsConsistent t) where
  with_users :
      (users : List User)
      → ((a b : User) → IsMember a users → IsMember b users → a.email ≡ b.email → a.id ≡ b.id)
      → ((a : User) → IsMember a users → role_is_valid a.role ≡ true)
      → ((id : ℤ) → any (has_id id) t.users ≡ true → any (has_id id) users ≡ true)
      → IsConsistent (record t { users = users })
  with_users users emails roles kept = record {
    emails = emails;
    roles = roles;
    profiles = λ p m. kept p.user_id (h.profiles p m);
    tokens = λ r m. kept r.user_id (h.tokens r m);
    hashes = h.hashes;
  }

pub insert_user-IsConsistent : (u : User) → Preserves IsConsistent (insert_user u)
unfolding insert_user
insert_user-IsConsistent u = record { at = go }
  where
    go : (w : World) → IsConsistent w.tables → IsConsistent (insert_user u w).1.tables
    go w h = elim (Bool-cases (role_is_valid u.role)) [
      | inr invalid ↦ rw invalid h
      | inl valid ↦ elim (Bool-cases (any (has_email u.email) w.tables.users)) [
        | inl taken ↦ rw (valid, taken) h
        | inr free ↦
            let created : User = record u {
              id = pos w.sequences.user_id;
              created_at = sql_now w;
              updated_at = sql_now w;
            } in
            rw (valid, free)
              (with_users h (w.tables.users ++ created ∷ [])
                (added_unique (λ (y : User). y.email) (λ (y : User). y.id) w.tables.users created
                  h.emails
                  (λ a m e.
                    true-false
                      (any-IsMember (has_email u.email) w.tables.users a m (has_email_at a e))
                      free))
                (added_all w.tables.users created h.roles valid)
                (λ id held. any-append_left (has_id id) w.tables.users (created ∷ []) held))
      ]
    ]

any-update_where :
    {A : Type 0} (q p : A → Bool) (f : A → A)
    → ((a : A) → q (f a) ≡ q a)
    → (xs : List A) → any q (update_where p f xs) ≡ any q xs
unfolding any update_where
any-update_where q p f kept [] = refl
any-update_where q p f kept (x ∷ xs) = elim (Bool-cases (p x)) [
  | inl held ↦ rw (held, kept x, any-update_where q p f kept xs) refl
  | inr miss ↦ rw (miss, any-update_where q p f kept xs) refl
]

pub own_id : (id : ℤ) (a : User) → has_id id a ≡ true → a.id ≡ id
unfolding has_id
own_id id a h = (int_eq_iff a.id id).0 h

module _ (u : User) (w : World) (h : IsConsistent w.tables) where
  abbrev changed : User → User
  changed a = if has_id u.id a then set_columns u (sql_now w) a else a

  abbrev other_with_email : User → Bool
  other_with_email o = not (has_id u.id o) && has_email u.email o

  changed_role : (a : User) → role_is_valid a.role ≡ true → role_is_valid (changed a).role ≡ true
  changed_role a r = elim (Bool-cases (has_id u.id a)) [
    | inl own ↦ rw own r
    | inr other ↦ rw other r
  ]

  -- A row under another id does not have the new address.
  no_other :
      any other_with_email w.tables.users ≡ false
      → (b : User) → IsMember b w.tables.users
      → has_id u.id b ≡ false
      → b.email ≡ u.email
      → ⊥
  no_other free b m other e =
      true-false
        (any-IsMember other_with_email w.tables.users b m
          (let same = has_email_at b e in rw (other, same) refl))
        free

  changed_id :
      any other_with_email w.tables.users ≡ false
      → (a b : User) → IsMember a w.tables.users
      → IsMember b w.tables.users
      → (changed a).email ≡ (changed b).email
      → (changed a).id ≡ (changed b).id
  changed_id free a b ma mb same = elim (Bool-cases (has_id u.id a)) [
    | inl own_a ↦ elim (Bool-cases (has_id u.id b)) [
      | inl own_b ↦ rw (own_a, own_b) (own_id u.id a own_a ∙ sym (own_id u.id b own_b))
      | inr other_b ↦ absurd (no_other free b mb other_b (sym (rw (own_a, other_b) at same)))
    ]
    | inr other_a ↦ elim (Bool-cases (has_id u.id b)) [
      | inl own_b ↦ absurd (no_other free a ma other_a (rw (other_a, own_b) at same))
      | inr other_b ↦ rw (other_a, other_b) (h.emails a b ma mb (rw (other_a, other_b) at same))
    ]
  ]

  updated_users :
      any other_with_email w.tables.users ≡ false
      → IsConsistent (record w.tables {
        users = update_where (has_id u.id) (set_columns u (sql_now w)) w.tables.users;
      })
  unfolding has_id
  updated_users free =
      with_users h (update_where (has_id u.id) (set_columns u (sql_now w)) w.tables.users)
        (λ a b ma mb same.
          let (a0, na, ea) = IsMember-update_where _ _ _ a ma in
          let (b0, nb, eb) = IsMember-update_where _ _ _ b mb in
          ap (λ (y : User). y.id) ea
          ∙ changed_id free a0 b0 na nb
              (ap (λ (y : User). y.email) (sym ea) ∙ same ∙ ap (λ (y : User). y.email) eb)
          ∙ ap (λ (y : User). y.id) (sym eb))
        (λ a ma.
          let (a0, na, ea) = IsMember-update_where _ _ _ a ma in
          rw ea (changed_role a0 (h.roles a0 na)))
        (λ id held.
          any-update_where (has_id id) (has_id u.id) (set_columns u (sql_now w)) (λ a. refl)
            w.tables.users
          ∙ held)

  write_row-at :
      (o : Option User) (b : Bool)
      → any other_with_email w.tables.users ≡ b
      → IsConsistent (write_row u o w).1.tables
  write_row-at none b q = h
  write_row-at (some old) true q = rw q h
  write_row-at (some old) false q = rw q (updated_users q)

pub update_user-IsConsistent : (u : User) → Preserves IsConsistent (update_user u)
unfolding update_user
update_user-IsConsistent u = record {
  at = λ w h. write_row-at u w h (find? (has_id u.id) w.tables.users) _ refl;
}

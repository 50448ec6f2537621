-- ===== src/Base/Queries.antt =====
-- Laws of the list operations that stand for SQL statements.
use mathlib.Core.Path.{◌≡◌, refl, ap, ◌∙◌}
use mathlib.Core.Logic.{inl, inr}
use mathlib.Core.Bool.{Bool, true, false}
use mathlib.Core.Option.{Option, none, some}
use mathlib.Core.List.{List, [], ◌∷◌, ◌++◌, map}
use native.Mathlib.Omega.{arith}
use go_identity_service.Base.Tests.{if◌then◌else◌, Bool-cases}
use go_identity_service.Base.Lists.{All, any, find?, update_where, delete_where}
use go_identity_service.Base.Members.{IsMember, first, later, IsMember-cons}

-- An option with a function applied to what it holds.
abbrev pub map_option {ℓ κ} : {A : Type ℓ} {B : Type κ} → (A → B) → Option A → Option B
map_option f none = none
map_option f (some a) = some (f a)

module _ {ℓ} {A : Type ℓ} where
  pub find?-append_some :
      (p : A → Bool) (xs ys : List A) (a : A) → find? p xs ≡ some a → find? p (xs ++ ys) ≡ some a
  unfolding find?
  find?-append_some p [] ys a h = cc
  find?-append_some p (x ∷ xs) ys a h = ground (arith, find?-append_some p xs ys a)

  -- What a query finds satisfies its test.
  pub find?-test : (p : A → Bool) (xs : List A) (a : A) → find? p xs ≡ some a → p a ≡ true
  unfolding find?
  find?-test p [] a h = cc
  find?-test p (x ∷ xs) a h = elim (Bool-cases (p x)) [
    | inl e ↦ ground (arith, ap (λ (o : Option A). map_option p o) (rw e at h))
    | inr e ↦ find?-test p xs a (rw e at h)
  ]

  pub any-find? : (p : A → Bool) (xs : List A) (a : A) → find? p xs ≡ some a → any p xs ≡ true
  unfolding find? any
  any-find? p [] a h = cc
  any-find? p (x ∷ xs) a h = ground (arith, any-find? p xs a)

  pub find?-any : (p : A → Bool) (xs : List A) → any p xs ≡ false → find? p xs ≡ none
  unfolding find? any
  find?-any p [] h = refl
  find?-any p (x ∷ xs) h = ground (arith, find?-any p xs)

  pub IsMember-delete_where :
      (p : A → Bool) (xs : List A) (a : A)
      → IsMember a (delete_where p xs)
      → IsMember a xs × (p a ≡ false)
  unfolding delete_where
  IsMember-delete_where p [] a m = elim m [ ]
  IsMember-delete_where p (x ∷ xs) a m = elim (Bool-cases (p x)) [
    | inl gone ↦ let (k, q) = IsMember-delete_where p xs a (rw gone at m) in (later k, q)
    | inr kept ↦ elim (IsMember-cons (rw kept at m)) [
      | inl e ↦ (first e, ap p e ∙ kept)
      | inr n ↦ let (k, q) = IsMember-delete_where p xs a n in (later k, q)
    ]
  ]

  -- What a deletion of other elements leaves for a query to find.
  pub find?-delete_where :
      (p q : A → Bool)
      → ((a : A) → p a ≡ true → q a ≡ false)
      → (xs : List A) → find? p (delete_where q xs) ≡ find? p xs
  unfolding find? delete_where
  find?-delete_where p q apart [] = refl
  find?-delete_where p q apart (x ∷ xs) = elim (Bool-cases (p x)) [
    | inl held ↦ let kept = apart x held in rw (kept, held) refl
    | inr miss ↦
        let rest = find?-delete_where p q apart xs in
        elim (Bool-cases (q x)) [
          | inl gone ↦ rw (gone, miss) rest
          | inr kept ↦ rw (kept, miss) rest
        ]
  ]

  -- An update that does not touch what the test reads.
  pub find?-update_where :
      (p q : A → Bool) (f : A → A)
      → ((a : A) → p (f a) ≡ p a)
      → (xs : List A)
      → find? p (update_where q f xs) ≡ map_option (λ a. if q a then f a else a) (find? p xs)
  unfolding find? update_where
  find?-update_where p q f keep [] = refl
  find?-update_where p q f keep (x ∷ xs) = ground (arith, keep x, find?-update_where p q f keep xs)

  pub All-update_where {κ} :
      (P : A → Type κ) (q : A → Bool) (f : A → A)
      → ((a : A) → q a ≡ true → P a → P (f a))
      → (xs : List A) → All P xs
      → All P (update_where q f xs)
  unfolding update_where
  All-update_where P q f keep [] h = tt
  All-update_where P q f keep (x ∷ xs) h = elim (Bool-cases (q x)) [
    | inl hit ↦ rw hit (keep x hit h.0, All-update_where P q f keep xs h.1)
    | inr miss ↦ rw miss (h.0, All-update_where P q f keep xs h.1)
  ]

  pub any-append_left : (p : A → Bool) (xs ys : List A) → any p xs ≡ true → any p (xs ++ ys) ≡ true
  unfolding any
  any-append_left p [] ys h = cc
  any-append_left p (x ∷ xs) ys h = ground (arith, any-append_left p xs ys)

  -- An element that passes the test, at the end.
  pub any-append_last :
      (p : A → Bool) (xs : List A) (a : A) → p a ≡ true → any p (xs ++ a ∷ []) ≡ true
  unfolding any
  any-append_last p [] a h = ground arith
  any-append_last p (x ∷ xs) a h = ground (arith, any-append_last p xs a h)

  pub map-update_where {κ} :
      {B : Type κ} (g : A → B) (q : A → Bool) (f : A → A)
      → ((a : A) → g (f a) ≡ g a)
      → (xs : List A) → map g (update_where q f xs) ≡ map g xs
  unfolding update_where
  map-update_where g q f keep [] = refl
  map-update_where g q f keep (x ∷ xs) = elim (Bool-cases (q x)) [
    | inl hit ↦ rw (hit, keep x, map-update_where g q f keep xs)
    | inr miss ↦ rw (miss, map-update_where g q f keep xs)
  ]

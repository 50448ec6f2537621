-- ===== src/Base/Ordering.antt =====
-- Sorting by an order that tells the elements apart forgets the order in which they came.
use mathlib.Core.Path.{◌≡◌, refl, sym, ap, ◌∙◌}
use mathlib.Core.Logic.{inl, inr}
use mathlib.Core.Bool.{Bool, true, false}
use mathlib.Core.List.{List, [], ◌∷◌}
use go_identity_service.Base.Tests.{if◌then◌else◌, Bool-cases}
use go_identity_service.Base.Members.{IsMember, first, later, IsMember-cons}
use go_identity_service.Base.Sorting.{insert_with, sort_with}

module _ {A : Type 0} where
  IsMember-insert_with :
      (le : A → A → Bool) (x : A) (l : List A) (a : A)
      → IsMember a (insert_with le x l)
      → IsMember a (x ∷ l)
  unfolding insert_with
  IsMember-insert_with le x [] a m = m
  IsMember-insert_with le x (y ∷ ys) a m = elim (Bool-cases (le x y)) [
    | inl h ↦ rw h at m
    | inr h ↦ elim (IsMember-cons (rw h at m)) [
      | inl e ↦ later (first e)
      | inr k ↦ elim (IsMember-cons (IsMember-insert_with le x ys a k)) [
        | inl e ↦ first e
        | inr n ↦ later (later n)
      ]
    ]
  ]

  IsMember-sort_with :
      (le : A → A → Bool) (xs : List A) (a : A) → IsMember a (sort_with le xs) → IsMember a xs
  unfolding sort_with
  IsMember-sort_with le [] a m = m
  IsMember-sort_with le (x ∷ xs) a m =
      elim (IsMember-cons (IsMember-insert_with le x (sort_with le xs) a m)) [
        | inl e ↦ first e
        | inr k ↦ later (IsMember-sort_with le xs a k)
      ]

  -- The order tells the elements of a list apart.
  pub record Separates (le : A → A → Bool) (xs : List A) : Type 0 where
    pub apart : (a b : A) → IsMember a xs → IsMember b xs → le a b ≡ true → le b a ≡ true → a ≡ b

  module _ (le : A → A → Bool) (total : (a b : A) → le a b ≡ false → le b a ≡ true)
      (transitive : (a b c : A) → le a b ≡ true → le b c ≡ true → le a c ≡ true) where
    in_any_order :
        (x y : A) (l : List A)
        → (le x y ≡ true → le y x ≡ true → x ≡ y)
        → (if le x y then x ∷ y ∷ l else y ∷ x ∷ l) ≡ (if le y x then y ∷ x ∷ l else x ∷ y ∷ l)
    in_any_order x y l same = elim (Bool-cases (le x y)) [
      | inl xy ↦ elim (Bool-cases (le y x)) [
        | inl yx ↦ let p = same xy yx in rw (xy, yx) (λ i. p i ∷ sym p i ∷ l)
        | inr yx ↦ rw (xy, yx) refl
      ]
      | inr xy ↦ let yx = total x y xy in rw (xy, yx) refl
    ]

    not-above : (x y z : A) → le x z ≡ true → le y z ≡ false → le y x ≡ false
    not-above x y z xz yz = elim (Bool-cases (le y x)) [
      | inl yx ↦ let k = transitive y x z yx xz in cc
      | inr yx ↦ yx
    ]

    insert_with_twice :
        (x y : A) (l : List A)
        → (le x y ≡ true → le y x ≡ true → x ≡ y)
        → insert_with le x (insert_with le y l) ≡ insert_with le y (insert_with le x l)
    unfolding insert_with
    insert_with_twice x y [] same = in_any_order x y [] same
    insert_with_twice x y (z ∷ zs) same = elim (Bool-cases (le x z)) [
      | inl xz ↦ elim (Bool-cases (le y z)) [
        | inl yz ↦ rw (yz, xz, yz) (in_any_order x y (z ∷ zs) same)
        | inr yz ↦ let yx = not-above x y z xz yz in rw (yz, xz, yx, yz) refl
      ]
      | inr xz ↦ elim (Bool-cases (le y z)) [
        | inl yz ↦ let xy = not-above y x z yz xz in rw (yz, xz, xy, yz) refl
        | inr yz ↦ rw (xz, yz, xz) (ap (λ l. z ∷ l) (insert_with_twice x y zs same))
      ]
    ]

  module _ (le : A → A → Bool) (total : (a b : A) → le a b ≡ false → le b a ≡ true)
      (transitive : (a b c : A) → le a b ≡ true → le b c ≡ true → le a c ≡ true)
      (other : A → A → Bool) where
    sort_with-insert_with :
        (x : A) (l : List A)
        → ((y : A) → IsMember y l → le x y ≡ true → le y x ≡ true → x ≡ y)
        → sort_with le (insert_with other x l) ≡ insert_with le x (sort_with le l)
    unfolding sort_with insert_with
    sort_with-insert_with x [] same = refl
    sort_with-insert_with x (y ∷ ys) same = elim (Bool-cases (other x y)) [
      | inl h ↦ rw h refl
      | inr h ↦ rw h (
          ap (insert_with le y) (sort_with-insert_with x ys (λ z m. same z (later m)))
          ∙ sym (insert_with_twice le total transitive x y (sort_with le ys) (same y (first refl))))
    ]

    pub sort_with-sort_with :
        (xs : List A) → Separates le xs → sort_with le (sort_with other xs) ≡ sort_with le xs
    unfolding sort_with
    sort_with-sort_with [] s = refl
    sort_with-sort_with (x ∷ xs) s =
        sort_with-insert_with x (sort_with other xs)
          (λ y m. s.apart x y (first refl) (later (IsMember-sort_with other xs y m)))
        ∙ ap (insert_with le x)
            (sort_with-sort_with xs (record { apart = λ a b m n. s.apart a b (later m) (later n) }))

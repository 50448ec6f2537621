-- ===== src/Base/Sorting.antt =====
-- ORDER BY, LIMIT and OFFSET: insertion sort by a Boolean order, and slices of a list.
use Prim.Native.Nat.{ℕ, zero, suc, ◌+◌, ◌≤◌}
use mathlib.Core.Path.{◌≡◌, refl, ap, ◌∙◌}
use mathlib.Core.Logic.{inl, inr}
use mathlib.Core.Bool.{Bool, true, false}
use mathlib.Core.List.{List, [], ◌∷◌, ◌++◌, map, Perm}
use mathlib.Core.List.Perm
use native.Mathlib.Omega.{arith}
use go_identity_service.Base.Tests.{if◌then◌else◌, Bool-cases}
use go_identity_service.Base.Lists.{length, take}

zero_add : (n : ℕ) → 0 + n ≡ n
zero_add n = omega arith

suc_add : (n m : ℕ) → suc n + m ≡ suc (n + m)
suc_add n m = omega arith

module _ {ℓ} {A : Type ℓ} where
  -- Equal elements stay in their order.
  unfoldable pub insert_with : (A → A → Bool) → A → List A → List A
  insert_with le x [] = x ∷ []
  insert_with le x (y ∷ ys) =
      let rest = insert_with le x ys in if le x y then x ∷ y ∷ ys else y ∷ rest

  unfoldable pub sort_with : (A → A → Bool) → List A → List A
  unfolding insert_with
  sort_with le [] = []
  sort_with le (x ∷ xs) = insert_with le x (sort_with le xs)

  unfoldable pub drop : ℕ → List A → List A
  drop zero xs = xs
  drop (suc n) [] = []
  drop (suc n) (x ∷ xs) = drop n xs

  Perm-insert_with : (le : A → A → Bool) (x : A) (xs : List A) → Perm (insert_with le x xs) (x ∷ xs)
  unfolding insert_with
  Perm-insert_with le x [] = Perm.refl _
  Perm-insert_with le x (y ∷ ys) = elim (Bool-cases (le x y)) [
    | inl h ↦ rw h (Perm.refl _)
    | inr h ↦ rw h (Perm.trans (Perm.cons y (Perm-insert_with le x ys)) (Perm.swap x y ys))
  ]

  -- Sorting loses nothing and adds nothing.
  pub Perm-sort_with : (le : A → A → Bool) (xs : List A) → Perm (sort_with le xs) xs
  unfolding sort_with
  Perm-sort_with le [] = Perm.refl _
  Perm-sort_with le (x ∷ xs) =
      Perm.trans (Perm-insert_with le x (sort_with le xs)) (Perm.cons x (Perm-sort_with le xs))

  length-insert_with :
      (le : A → A → Bool) (x : A) (xs : List A) → length (insert_with le x xs) ≡ suc (length xs)
  unfolding insert_with
  length-insert_with le x [] = refl
  length-insert_with le x (y ∷ ys) = elim (Bool-cases (le x y)) [
    | inl h ↦ rw h refl
    | inr h ↦ rw h (ap suc (length-insert_with le x ys))
  ]

  pub length-sort_with : (le : A → A → Bool) (xs : List A) → length (sort_with le xs) ≡ length xs
  unfolding sort_with
  length-sort_with le [] = refl
  length-sort_with le (x ∷ xs) =
      length-insert_with le x (sort_with le xs) ∙ ap suc (length-sort_with le xs)

  -- Each element is at most its successor.
  abbrev pub IsSortedFrom : (A → A → Bool) → A → List A → Type 0
  IsSortedFrom le a [] = Unit
  IsSortedFrom le a (b ∷ xs) = (le a b ≡ true) × IsSortedFrom le b xs

  abbrev pub IsSorted : (A → A → Bool) → List A → Type 0
  IsSorted le [] = Unit
  IsSorted le (a ∷ xs) = IsSortedFrom le a xs

  module _ (le : A → A → Bool) (total : (a b : A) → le a b ≡ false → le b a ≡ true) where
    insert_with-IsSortedFrom :
        (x a : A) (xs : List A)
        → le a x ≡ true
        → IsSortedFrom le a xs
        → IsSortedFrom le a (insert_with le x xs)
    unfolding insert_with
    insert_with-IsSortedFrom x a [] h s = (h, tt)
    insert_with-IsSortedFrom x a (y ∷ ys) h s = elim (Bool-cases (le x y)) [
      | inl p ↦ rw p (h, (p, s.1))
      | inr p ↦ rw p (s.0, insert_with-IsSortedFrom x y ys (total x y p) s.1)
    ]

    insert_with-IsSorted :
        (x : A) (xs : List A) → IsSorted le xs → IsSorted le (insert_with le x xs)
    unfolding insert_with
    insert_with-IsSorted x [] s = tt
    insert_with-IsSorted x (y ∷ ys) s = elim (Bool-cases (le x y)) [
      | inl p ↦ rw p (p, s)
      | inr p ↦ rw p (insert_with-IsSortedFrom x y ys (total x y p) s)
    ]

    pub sort_with-IsSorted : (xs : List A) → IsSorted le (sort_with le xs)
    unfolding sort_with
    sort_with-IsSorted [] = tt
    sort_with-IsSorted (x ∷ xs) = insert_with-IsSorted x (sort_with le xs) (sort_with-IsSorted xs)

  pub length-map {κ} : {B : Type κ} (f : A → B) (xs : List A) → length (map f xs) ≡ length xs
  length-map f [] = refl
  length-map f (x ∷ xs) = ap suc (length-map f xs)

  pub length-map-take {κ} :
      {B : Type κ} (f : A → B) (n : ℕ) (xs : List A) → length (map f (take n xs)) ≤ n
  length-map-take f zero xs = omega arith
  length-map-take f (suc n) [] = omega arith
  length-map-take f (suc n) (x ∷ xs) = omega (arith, length-map-take f n xs)

  take-nil : (n : ℕ) → take {A = A} n [] ≡ []
  take-nil zero = refl
  take-nil (suc n) = refl

  drop-nil : (n : ℕ) → drop n [] ≡ []
  unfolding drop
  drop-nil zero = refl
  drop-nil (suc n) = refl

  -- A slice, and the slice behind it.
  pub take-drop :
      (m n k : ℕ) (xs : List A)
      → take n (drop k xs) ++ take m (drop (k + n) xs) ≡ take (n + m) (drop k xs)
  unfolding drop
  take-drop m n k [] = simp (drop-nil, take-nil) refl
  take-drop m zero zero (x ∷ xs) = rw (zero_add 0, zero_add m) refl
  take-drop m (suc n) zero (x ∷ xs) =
      rw (zero_add (suc n), suc_add n m)
        (ap (λ l. x ∷ l) (rw (zero_add n) at (take-drop m n zero xs)))
  take-drop m n (suc k) (x ∷ xs) = rw (suc_add k n) (take-drop m n k xs)

  pub take-all : (n : ℕ) (xs : List A) → length xs ≤ n → take n xs ≡ xs
  take-all zero [] h = refl
  take-all zero (x ∷ xs) h = absurd (omega (arith, h))
  take-all (suc n) [] h = refl
  take-all (suc n) (x ∷ xs) h = ap (λ l. x ∷ l) (take-all n xs (omega (arith, h)))

-- ===== src/Base/Members.antt =====
-- Membership in the results of the list operations that stand for SQL statements.
use Prim.Native.Nat.{ℕ, zero, suc}
use mathlib.Core.Path.{◌≡◌, refl, sym, ap, ◌∙◌}
use mathlib.Core.Logic.{◌⊎◌, inl, inr}
use mathlib.Core.Bool.{Bool, true}
use mathlib.Core.List.{List, [], ◌∷◌, ◌++◌, map}
use native.Mathlib.Omega.{arith}
use go_identity_service.Base.Tests.{if◌then◌else◌, ltb, Bool-cases}
use go_identity_service.Base.Lists.{All, any, update_where, filter, take, insert_by, sort_by}

module _ {ℓ} {A : Type ℓ} where
  pub data IsMember (a : A) : List A → Type ℓ where
    first : {x : A} {xs : List A} → a ≡ x → IsMember a (x ∷ xs)
    later : {x : A} {xs : List A} → IsMember a xs → IsMember a (x ∷ xs)

  pub IsMember-cons : {a x : A} {xs : List A} → IsMember a (x ∷ xs) → (a ≡ x) ⊎ IsMember a xs
  IsMember-cons (first e) = inl e
  IsMember-cons (later m) = inr m

module _ {ℓ} {A : Type ℓ} where
  pub IsMember-append :
      (xs ys : List A) (a : A) → IsMember a (xs ++ ys) → IsMember a xs ⊎ IsMember a ys
  IsMember-append [] ys a h = inr h
  IsMember-append (x ∷ xs) ys a (first e) = inl (first e)
  IsMember-append (x ∷ xs) ys a (later h) = elim (IsMember-append xs ys a h) [
    | inl k ↦ inl (later k)
    | inr k ↦ inr k
  ]

  pub IsMember-append_left : (xs ys : List A) (a : A) → IsMember a xs → IsMember a (xs ++ ys)
  IsMember-append_left [] ys a h = elim h [ ]
  IsMember-append_left (x ∷ xs) ys a (first e) = first e
  IsMember-append_left (x ∷ xs) ys a (later h) = later (IsMember-append_left xs ys a h)

  pub IsMember-append_last : (xs : List A) (a : A) → IsMember a (xs ++ a ∷ [])
  IsMember-append_last [] a = first refl
  IsMember-append_last (x ∷ xs) a = later (IsMember-append_last xs a)

  -- A row behind an update is a row before it, updated if it passed the test.
  pub IsMember-update_where :
      (p : A → Bool) (f : A → A) (xs : List A) (b : A)
      → IsMember b (update_where p f xs)
      → (a : A) × IsMember a xs × (b ≡ (if p a then f a else a))
  unfolding update_where
  IsMember-update_where p f [] b h = elim h [ ]
  IsMember-update_where p f (x ∷ xs) b (first e) = (x, first refl, e)
  IsMember-update_where p f (x ∷ xs) b (later h) =
      let (a, m, e) = IsMember-update_where p f xs b h in (a, later m, e)

  pub IsMember-take : (n : ℕ) (xs : List A) (a : A) → IsMember a (take n xs) → IsMember a xs
  IsMember-take zero xs a h = elim h [ ]
  IsMember-take (suc n) [] a h = elim h [ ]
  IsMember-take (suc n) (x ∷ xs) a (first e) = first e
  IsMember-take (suc n) (x ∷ xs) a (later h) = later (IsMember-take n xs a h)

  IsMember-insert_by :
      (key : A → ℕ) (x : A) (xs : List A) (a : A)
      → IsMember a (insert_by key x xs)
      → (a ≡ x) ⊎ IsMember a xs
  unfolding insert_by
  IsMember-insert_by key x [] a h = IsMember-cons h
  IsMember-insert_by key x (y ∷ ys) a h = elim (Bool-cases (ltb (key y) (key x))) [
    | inl behind ↦ elim (IsMember-cons (rw behind at h)) [
      | inl e ↦ inr (first e)
      | inr m ↦ elim (IsMember-insert_by key x ys a m) [ inl e ↦ inl e | inr k ↦ inr (later k) ]
    ]
    | inr before ↦ IsMember-cons (rw before at h)
  ]

  pub IsMember-sort_by :
      (key : A → ℕ) (xs : List A) (a : A) → IsMember a (sort_by key xs) → IsMember a xs
  unfolding sort_by
  IsMember-sort_by key [] a h = elim h [ ]
  IsMember-sort_by key (x ∷ xs) a h = elim (IsMember-insert_by key x (sort_by key xs) a h) [
    | inl e ↦ first e
    | inr m ↦ later (IsMember-sort_by key xs a m)
  ]

  pub IsMember-filter :
      (p : A → Bool) (xs : List A) (a : A) → IsMember a (filter p xs) → IsMember a xs × (p a ≡ true)
  unfolding filter
  IsMember-filter p [] a h = elim h [ ]
  IsMember-filter p (x ∷ xs) a h = elim (Bool-cases (p x)) [
    | inl hit ↦ elim (IsMember-cons (rw hit at h)) [
      | inl e ↦ (first e, ap p e ∙ hit)
      | inr m ↦ let (k, t) = IsMember-filter p xs a m in (later k, t)
    ]
    | inr miss ↦ let (k, t) = IsMember-filter p xs a (rw miss at h) in (later k, t)
  ]

  pub IsMember-any :
      (p : A → Bool) (xs : List A) → any p xs ≡ true → (a : A) × IsMember a xs × (p a ≡ true)
  unfolding any
  IsMember-any p [] h = cc
  IsMember-any p (x ∷ xs) h = elim (Bool-cases (p x)) [
    | inl hit ↦ (x, first refl, hit)
    | inr miss ↦ let (a, m, t) = IsMember-any p xs (rw miss at h) in (a, later m, t)
  ]

  pub any-IsMember :
      (p : A → Bool) (xs : List A) (a : A) → IsMember a xs → p a ≡ true → any p xs ≡ true
  unfolding any
  any-IsMember p [] a m h = elim m [ ]
  any-IsMember p (x ∷ xs) a (first e) h = rw (sym (ap p e) ∙ h) refl
  any-IsMember p (x ∷ xs) a (later m) h = ground (arith, any-IsMember p xs a m h)

  pub IsMember-map {κ} :
      {B : Type κ} (f : A → B) (xs : List A) (b : B)
      → IsMember b (map f xs)
      → (a : A) × IsMember a xs × (b ≡ f a)
  IsMember-map f [] b h = elim h [ ]
  IsMember-map f (x ∷ xs) b (first e) = (x, first refl, e)
  IsMember-map f (x ∷ xs) b (later h) = let (a, m, e) = IsMember-map f xs b h in (a, later m, e)

  pub map-IsMember {κ} :
      {B : Type κ} (f : A → B) (xs : List A) (a : A) → IsMember a xs → IsMember (f a) (map f xs)
  map-IsMember f [] a m = elim m [ ]
  map-IsMember f (x ∷ xs) a (first e) = first (ap f e)
  map-IsMember f (x ∷ xs) a (later m) = later (map-IsMember f xs a m)

  pub All-IsMember {κ} : (P : A → Type κ) (xs : List A) → ((a : A) → IsMember a xs → P a) → All P xs
  All-IsMember P [] h = tt
  All-IsMember P (x ∷ xs) h = (h x (first refl), All-IsMember P xs (λ a m. h a (later m)))

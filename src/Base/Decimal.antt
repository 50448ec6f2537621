-- ===== src/Base/Decimal.antt =====
-- strconv.FormatInt to base 10, and that no two integers print alike.
use Prim.Native.Nat.{ℕ, zero, suc, ◌+◌, ◌-◌, ◌*◌, ◌/◌, ◌%◌, ◌<◌, ◌≤◌}
use mathlib.Core.Path.{◌≡◌, refl, sym, ap, ◌∙◌}
use mathlib.Core.Bool.{false}
use mathlib.Core.Logic.{inl, inr}
use mathlib.Core.List.{[], ◌∷◌, ◌++◌}
use native.Mathlib.Omega.{arith}
use go_identity_service.Base.Tests.{ltb, ◌==◌, if◌then◌else◌, Bool-cases}
use go_identity_service.Base.Integers.{ℤ, pos, negsuc}
use go_identity_service.Base.Strings.{Text, is_empty}

-- The decimal digits of a number, with fuel above it.
digits : ℕ → ℕ → Text
digits zero n = []
digits (suc f) n =
    let rest = digits f (n / 10) in if ltb n 10 then (48 + n) ∷ [] else rest ++ (48 + n % 10) ∷ []

unfoldable pub format_int : ℤ → Text
unfolding digits
format_int (pos n) = digits (suc n) n
format_int (negsuc n) = 45 ∷ digits (suc (suc n)) (suc n)

value : ℕ → Text → ℕ
value acc [] = acc
value acc (d ∷ ds) = value (acc * 10 + (d - 48)) ds

value-append :
    (acc : ℕ) (xs : Text) (d : ℕ) → value acc (xs ++ d ∷ []) ≡ value acc xs * 10 + (d - 48)
unfolding value
value-append acc [] d = refl
value-append acc (x ∷ xs) d = value-append (acc * 10 + (x - 48)) xs d

value-digits : (f n : ℕ) → n < f → value 0 (digits f n) ≡ n
unfolding digits value
value-digits zero n h = elim h [ ]
value-digits (suc f) n h = elim (Bool-cases (ltb n 10)) [
  | inl small ↦ rw small (ground arith)
  | inr big ↦
      rw
        (
          big,
          value-append 0 (digits f (n / 10)) (48 + n % 10),
          value-digits f (n / 10) (ground arith),
        )
        (omega arith)
]

parse_int : Text → ℤ
parse_int [] = pos 0
parse_int (c ∷ s) = if c == 45 then negsuc (value 0 s - 1) else pos (value 0 (c ∷ s))

-- The first of the digits is no minus sign.
abbrev IsUnsigned : Text → Type 0
IsUnsigned [] = Unit {0}
IsUnsigned (c ∷ s) = 48 ≤ c

IsUnsigned-append : (s t : Text) → IsUnsigned s → IsUnsigned t → IsUnsigned (s ++ t)
IsUnsigned-append [] t hs ht = ht
IsUnsigned-append (c ∷ s) t hs ht = hs

digits-IsUnsigned : (f n : ℕ) → IsUnsigned (digits f n)
unfolding digits
digits-IsUnsigned zero n = tt
digits-IsUnsigned (suc f) n = elim (Bool-cases (ltb n 10)) [
  | inl small ↦ rw small (omega arith)
  | inr big ↦
      rw big (IsUnsigned-append (digits f (n / 10)) _ (digits-IsUnsigned f (n / 10)) (omega arith))
]

parse_int-unsigned : (s : Text) → IsUnsigned s → parse_int s ≡ pos (value 0 s)
unfolding parse_int value
parse_int-unsigned [] h = refl
parse_int-unsigned (c ∷ s) h = ground arith

parse_int-format_int : (z : ℤ) → parse_int (format_int z) ≡ z
unfolding format_int
parse_int-format_int (pos n) =
    parse_int-unsigned (digits (suc n) n) (digits-IsUnsigned (suc n) n)
    ∙ ap pos (value-digits (suc n) n (omega arith))
parse_int-format_int (negsuc n) =
    unfold parse_int in
    ap (λ k. negsuc (k - 1)) (value-digits (suc (suc n)) (suc n) (omega arith))
    ∙ ap negsuc (omega arith)

pub format_int-injective : (a b : ℤ) → format_int a ≡ format_int b → a ≡ b
format_int-injective a b e = sym (parse_int-format_int a) ∙ ap parse_int e ∙ parse_int-format_int b

digits-nonempty : (f n : ℕ) → n < f → is_empty (digits f n) ≡ false
unfolding digits
digits-nonempty zero n h = elim h [ ]
digits-nonempty (suc f) n h = elim (Bool-cases (ltb n 10)) [
  | inl small ↦ rw small
  | inr big ↦ rw big (snoc (digits f (n / 10)) (48 + n % 10))
]
  where
    snoc : (s : Text) (c : ℕ) → is_empty (s ++ c ∷ []) ≡ false
    snoc [] c = refl
    snoc (d ∷ s) c = refl

pub is_empty-format_int : (z : ℤ) → is_empty (format_int z) ≡ false
unfolding format_int
is_empty-format_int (pos n) = digits-nonempty (suc n) n (omega arith)
is_empty-format_int (negsuc n) = refl

-- ===== src/Base/Parse.antt =====
-- strconv.ParseInt to base 10 and 64 bits, which strconv.Atoi is on a 64-bit machine.
use Prim.Native.Nat.{ℕ, ◌+◌, ◌-◌, ◌*◌}
use mathlib.Core.Path.{◌≡◌, refl}
use mathlib.Core.Logic.{inl, inr}
use mathlib.Core.Bool.{true, false, ◌&&◌}
use mathlib.Core.List.{[], ◌∷◌}
use mathlib.Core.Option.{Option, none, some}
use native.Mathlib.Omega.{arith}
use go_identity_service.Base.Tests.{leb, ◌==◌, if◌then◌else◌, Bool-cases}
use go_identity_service.Base.Integers.{ℤ, pos, negsuc}
use go_identity_service.Base.Strings.{Text, is_space, trim_left, trim_right, trim_space}
use go_identity_service.Base.Lists.{All}

abbrev max_int64 : ℕ
max_int64 = 9223372036854775807

abbrev map_value : (ℕ → Option ℤ) → Option ℕ → Option ℤ
map_value f none = none
map_value f (some n) = f n

-- The number that digits stand for, behind the digits read so far.
unfoldable pub digits_value : ℕ → Text → Option ℕ
digits_value acc [] = some acc
digits_value acc (c ∷ s) =
    let rest = digits_value (acc * 10 + (c - 48)) s in if leb 48 c && leb c 57 then rest else none

abbrev unsigned_value : Text → Option ℕ
unsigned_value [] = none
unsigned_value (c ∷ s) = digits_value 0 (c ∷ s)

abbrev positive : ℕ → Option ℤ
positive n = if leb n max_int64 then some (pos n) else none

abbrev negative : ℕ → Option ℤ
negative n =
    if n == 0 then some (pos 0) else if leb (n - 1) max_int64 then some (negsuc (n - 1)) else none

unfoldable pub parse_int64 : Text → Option ℤ
parse_int64 [] = none
parse_int64 (c ∷ s) =
    if c == 43
    then map_value positive (unsigned_value s)
    else if c == 45
    then map_value negative (unsigned_value s)
    else map_value positive (unsigned_value (c ∷ s))

not_some : {A : Type 0} {a : A} → none ≡ some a → ⊥
not_some h = cc

-- A digit is no space.
digit_no_space : (c : ℕ) → (leb 48 c && leb c 57) ≡ true → is_space c ≡ false
unfolding is_space
digit_no_space c h = ground (arith, h)

abbrev HasNoSpace : Text → Type 0
HasNoSpace s = All (λ c. is_space c ≡ false) s

digits_value-HasNoSpace : (acc : ℕ) (s : Text) {n : ℕ} → digits_value acc s ≡ some n → HasNoSpace s
unfolding digits_value
digits_value-HasNoSpace acc [] h = tt
digits_value-HasNoSpace acc (c ∷ s) h = elim (Bool-cases (leb 48 c && leb c 57)) [
  | inl d ↦ (digit_no_space c d, digits_value-HasNoSpace (acc * 10 + (c - 48)) s (rw d at h))
  | inr d ↦ absurd (not_some (rw d at h))
]

map_value-some :
    (f : ℕ → Option ℤ) (o : Option ℕ) {z : ℤ} → map_value f o ≡ some z → (n : ℕ) × (o ≡ some n)
map_value-some f none h = absurd (not_some h)
map_value-some f (some n) h = (n, refl)

unsigned_value-HasNoSpace : (s : Text) {n : ℕ} → unsigned_value s ≡ some n → HasNoSpace s
unsigned_value-HasNoSpace [] h = tt
unsigned_value-HasNoSpace (c ∷ s) h = digits_value-HasNoSpace 0 (c ∷ s) h

parse_int64-HasNoSpace : (s : Text) {z : ℤ} → parse_int64 s ≡ some z → HasNoSpace s
unfolding parse_int64 is_space
parse_int64-HasNoSpace [] h = tt
parse_int64-HasNoSpace (c ∷ s) h = elim (Bool-cases (c == 43)) [
  | inl plus ↦
      let (n, e) = map_value-some positive (unsigned_value s) (rw plus at h) in
      (ground (arith, plus), unsigned_value-HasNoSpace s e)
  | inr other ↦ elim (Bool-cases (c == 45)) [
    | inl minus ↦
        let (n, e) = map_value-some negative (unsigned_value s) (rw (other, minus) at h) in
        (ground (arith, minus), unsigned_value-HasNoSpace s e)
    | inr digit ↦
        let (n, e) = map_value-some positive (unsigned_value (c ∷ s)) (rw (other, digit) at h) in
        unsigned_value-HasNoSpace (c ∷ s) e
  ]
]

trim_right-HasNoSpace : (s : Text) → HasNoSpace s → trim_right s ≡ s
unfolding trim_right
trim_right-HasNoSpace [] h = refl
trim_right-HasNoSpace (c ∷ s) h = rw (h.0, trim_right-HasNoSpace s h.1) refl

trim_left-HasNoSpace : (s : Text) → HasNoSpace s → trim_left s ≡ s
unfolding trim_left
trim_left-HasNoSpace [] h = refl
trim_left-HasNoSpace (c ∷ s) h = rw (h.0) refl

-- A text that is a number has no space around it.
pub trim_space-parse_int64 : (s : Text) {z : ℤ} → parse_int64 s ≡ some z → trim_space s ≡ s
unfolding trim_space
trim_space-parse_int64 s h =
    let no_space = parse_int64-HasNoSpace s h in
    rw (trim_left-HasNoSpace s no_space, trim_right-HasNoSpace s no_space) refl

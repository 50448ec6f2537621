-- ===== src/Ratelimit/Agreement.antt =====
-- The limiter in Redis against the limiter in memory: a clock in whole milliseconds, and a longer window.
use go_identity_service.Base.{
  ℕ, suc, ◌/◌, ◌<◌, ◌==◌, pos, leb, ltb, Text, text_eq, text_eq_iff, codes, ◌++◌, ◌≡◌, refl, ap,
  Bool, true, false, Bool-cases, ◌⊎◌, inl, inr, Option, none, some, List, [], ◌∷◌, arith,
}
use go_identity_service.Apperror.{Result, ok}
use go_identity_service.World.{answered}
use go_identity_service.Ratelimit.InMemory.{Entry, Limiter, set_entry, new_entry, admit, store}
use go_identity_service.Ratelimit.InMemory
use go_identity_service.Ratelimit.Redis
use go_identity_service.Ratelimit.Redis.{
  Counter, Keys, incr, incr_and_expire, set_counter, redis_key, has_expired,
}
use go_identity_service.Ratelimit.Window.{Request, smaller}

-- An entry and a counter that stand for the same window: Redis goes on counting past the limit.
data Agree (n : ℕ) : Option Entry → Option Counter → Type 0 where
  absent : Agree n none none
  present :
      (e : Entry) (c : Counter) (at : ℕ)
      → 0 < c.count
      → c.expires_at ≡ some at
      → e.reset_at ≡ suc at
      → e.count ≡ smaller n c.count
      → Agree n (some e) (some c)

abbrev behind : Option Entry → Option Entry → Option Entry
behind old none = old
behind old (some e) = some e

abbrev is_some : Option Entry → Bool
is_some none = false
is_some (some e) = true

module _ (n now ttl : ℕ) (some_left : 0 < n) where
  abbrev after : Option Entry → Option Entry
  after m = admit now (pos n) (suc ttl) m

  step-Agree :
      (m : Option Entry) (c : Option Counter)
      → Agree n m c
      → (is_some (after m) ≡ leb (incr_and_expire now ttl c).count n)
        × Agree n (behind m (after m)) (some (incr_and_expire now ttl c))
  unfolding admit incr_and_expire
  step-Agree none none absent =
      (ground arith, present _ _ _ (ground arith) refl (ground arith) (ground arith))
  step-Agree none (some c) h = elim h [ ]
  step-Agree (some e) none h = elim h [ ]
  step-Agree (some e) (some c) (present _ _ at counted expires ends count) =
      go (Bool-cases (ltb now e.reset_at)) (Bool-cases (leb n e.count))
    where
      go :
          (ltb now e.reset_at ≡ true) ⊎ (ltb now e.reset_at ≡ false)
          → (leb n e.count ≡ true) ⊎ (leb n e.count ≡ false)
          → (is_some (after (some e)) ≡ leb (incr_and_expire now ttl (some c)).count n)
            × Agree n (behind (some e) (after (some e))) (some (incr_and_expire now ttl (some c)))
      go (inr over) full =
          let gone : ltb at now ≡ true = ground arith in
          rw (expires, over, gone)
            (ground arith, present _ _ _ (ground arith) refl (ground arith) (ground arith))
      go (inl within) (inl full) =
          let there : ltb at now ≡ false = ground arith in
          let more : (suc c.count == 1) ≡ false = ground arith in
          rw (expires, within, there, more, full)
            (ground arith, present _ _ _ (ground arith) refl (ground arith) (ground arith))
      go (inl within) (inr free) =
          let there : ltb at now ≡ false = ground arith in
          let more : (suc c.count == 1) ≡ false = ground arith in
          rw (expires, within, there, more, free)
            (ground arith, present _ _ _ (ground arith) refl (ground arith) (ground arith))

text_eq-append : (p s t : Text) → text_eq (p ++ s) (p ++ t) ≡ text_eq s t
unfolding text_eq
text_eq-append [] s t = refl
text_eq-append (c ∷ p) s t = ground (arith, text_eq-append p s t)

text_eq-redis_key :
    (prefix j k : Text) → text_eq (redis_key prefix j) (redis_key prefix k) ≡ text_eq j k
text_eq-redis_key prefix j k = text_eq-append (prefix ++ codes ":") j k

store_other :
    (key k : Text) (l : Limiter) (o : Option Entry)
    → text_eq key k ≡ false
    → (store key l o).1 k ≡ l k
store_other key k l none h = refl
store_other key k l (some e) h = rw h refl

store_own :
    (key k : Text) (l : Limiter) (o : Option Entry)
    → text_eq key k ≡ true
    → (store key l o).1 k ≡ behind (l k) o
store_own key k l none h = refl
store_own key k l (some e) h = rw h refl

store-is_some : (key : Text) (l : Limiter) (o : Option Entry) → (store key l o).0 ≡ is_some o
store-is_some key l none = refl
store-is_some key l (some e) = refl

-- The verdicts on requests that come one after the other.
unfoldable pub memory_verdicts : ℕ → ℕ → Limiter → List Request → List (Result Bool)
memory_verdicts n window l [] = []
memory_verdicts n window l ((t, key) ∷ rs) =
    let (b, l') = InMemory.allow l t key (pos n) window in ok b ∷ memory_verdicts n window l' rs

unfoldable pub redis_verdicts : Text → ℕ → ℕ → Keys → List Request → List (Result Bool)
redis_verdicts prefix n window s [] = []
redis_verdicts prefix n window s ((t, key) ∷ rs) =
    let (r, s') = Redis.allow prefix answered s t key (pos n) window in
    r ∷ redis_verdicts prefix n window s' rs

-- The requests with their times in whole milliseconds.
unfoldable pub in_millis : List Request → List Request
in_millis [] = []
in_millis ((t, key) ∷ rs) = (t / 1000000, key) ∷ in_millis rs

module _ (prefix : Text) (n window : ℕ) (some_left : 0 < n) (some_time : 0 < window / 1000000) where
  abbrev ttl : ℕ
  ttl = window / 1000000

  abbrev AgreeAll : Limiter → Keys → Type 0
  AgreeAll l s = (k : Text) → Agree n (l k) (s (redis_key prefix k))

  next-AgreeAll :
      (l : Limiter) (s : Keys) (t : ℕ) (key : Text)
      → AgreeAll l s
      → AgreeAll
          (store key l (admit t (pos n) (suc ttl) (l key))).1
          (set_counter (redis_key prefix key) (incr_and_expire t ttl (s (redis_key prefix key))) s)
  next-AgreeAll l s t key h k = elim (Bool-cases (text_eq key k)) [
    | inr miss ↦
        rw
          (
            store_other key k l (admit t (pos n) (suc ttl) (l key)) miss,
            text_eq-redis_key prefix key k,
            miss,
          )
          (h k)
    | inl hit ↦
        rw
          (
            store_own key k l (admit t (pos n) (suc ttl) (l key)) hit,
            text_eq-redis_key prefix key k,
            hit,
            (text_eq_iff key k).0 hit,
          )
          (step-Agree n t ttl some_left (l k) (s (redis_key prefix k)) (h k)).1
  ]

  AgreeAll-verdicts :
      (rs : List Request) (l : Limiter) (s : Keys)
      → AgreeAll l s
      → memory_verdicts n (suc ttl) l (in_millis rs) ≡ redis_verdicts prefix n window s rs
  unfolding memory_verdicts redis_verdicts in_millis InMemory.allow Redis.allow
  AgreeAll-verdicts [] l s h = refl
  AgreeAll-verdicts ((time, key) ∷ rs) l s h =
      let t = time / 1000000 in
      let bounded : leb n 0 ≡ false = ground arith in
      let timed : leb ttl 0 ≡ false = ground arith in
      rw
        (
          bounded,
          timed,
          store-is_some key l (admit t (pos n) (suc ttl) (l key)),
          (step-Agree n t ttl some_left (l key) (s (redis_key prefix key)) (h key)).0,
        )
        (ap (λ vs. ok (leb (incr_and_expire t ttl (s (redis_key prefix key))).count n) ∷ vs)
          (AgreeAll-verdicts rs (store key l (admit t (pos n) (suc ttl) (l key))).1
            (set_counter (redis_key prefix key) (incr_and_expire t ttl (s (redis_key prefix key)))
              s)
            (next-AgreeAll l s t key h)))

  -- With a positive limit and a window of at least a millisecond, when both start empty and Redis answers:
  -- the limiter in Redis gives on every sequence of requests the verdicts of the limiter in memory whose
  -- clock shows whole milliseconds and whose window is the window in whole milliseconds and one more.
  pub memory-redis_verdicts :
      (rs : List Request)
      → memory_verdicts n (suc (window / 1000000)) (λ k. none) (in_millis rs)
        ≡ redis_verdicts prefix n window (λ k. none) rs
  memory-redis_verdicts rs = AgreeAll-verdicts rs (λ k. none) (λ k. none) (λ k. absent)

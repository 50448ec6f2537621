-- ===== src/Ratelimit/Window.antt =====
-- How many requests the limiter in memory grants within one window.
use go_identity_service.Base.{
  ℕ, suc, ◌+◌, ◌≤◌, ◌<◌, ℤ, pos, int_leb, leb, ltb, Text, text_eq, text_eq_iff, ◌≡◌, refl, sym, ap,
  subst, ◌∙◌, Bool, true, false, ◌&&◌, Bool-cases, ◌⊎◌, inl, inr, Option, none, some, List, [], ◌∷◌,
  All, if◌then◌else◌, arith,
}
use go_identity_service.Ratelimit.InMemory.{Entry, Limiter, set_entry, admit, store, allow}

-- A request is the time at which it comes and its key.
abbrev pub Request : Type 0
Request = ℕ × Text

abbrev pub smaller : ℕ → ℕ → ℕ
smaller a b = if leb a b then a else b

-- The requests for a key, and those of them that Allow grants, one after the other.
unfoldable pub requested : Text → List Request → ℕ
requested k [] = 0
requested k ((t, key) ∷ rs) = let rest = requested k rs in if text_eq key k then suc rest else rest

unfoldable pub granted : ℤ → ℕ → Text → Limiter → List Request → ℕ
granted limit window k l [] = 0
granted limit window k l ((t, key) ∷ rs) =
    let (b, l') = allow l t key limit window in
    let rest = granted limit window k l' rs in if text_eq key k && b then suc rest else rest

allow_other :
    (l : Limiter) (t : ℕ) (key k : Text) (limit : ℤ) (window : ℕ)
    → text_eq key k ≡ false
    → (allow l t key limit window).1 k ≡ l k
unfolding allow
allow_other l t key k limit window h = go (int_leb limit (pos 0)) (admit t limit window (l key))
  where
    go : (b : Bool) (o : Option Entry) → (if b then (true, l) else store key l o).1 k ≡ l k
    go true o = refl
    go false none = refl
    go false (some e) = rw h refl

allow_full :
    (l : Limiter) (t : ℕ) (k : Text) (n : ℕ) (window : ℕ) (e : Entry)
    → 0 < n
    → l k ≡ some e
    → t < e.reset_at
    → n ≤ e.count
    → allow l t k (pos n) window ≡ (false, l)
unfolding allow
allow_full l t k n window e pn h before full = rw (positive, h, live, reached) refl
  where
    positive : leb n 0 ≡ false
    positive = ground arith

    live : ltb t e.reset_at ≡ true
    live = ground arith

    reached : leb n e.count ≡ true
    reached = ground arith

allow_open :
    (l : Limiter) (t : ℕ) (k : Text) (n : ℕ) (window : ℕ) (e : Entry)
    → 0 < n
    → l k ≡ some e
    → t < e.reset_at
    → e.count < n
    → allow l t k (pos n) window ≡ (true, set_entry k (record e { count = suc e.count }) l)
unfolding allow
allow_open l t k n window e pn h before left = rw (positive, h, live, reached) refl
  where
    positive : leb n 0 ≡ false
    positive = ground arith

    live : ltb t e.reset_at ≡ true
    live = ground arith

    reached : leb n e.count ≡ false
    reached = ground arith

module _ (k : Text) (n window : ℕ) (some_left : 0 < n) where
  own :
      (l : Limiter) (e : Entry) (t : ℕ) (key : Text) (rs : List Request)
      → ((l' : Limiter) (e' : Entry)
          → l' k ≡ some e'
          → e'.count ≤ n
          → e'.reset_at ≡ e.reset_at
          → e'.count + granted (pos n) window k l' rs ≡ smaller n (e'.count + requested k rs))
      → text_eq key k ≡ true
      → l k ≡ some e
      → e.count ≤ n
      → t < e.reset_at
      → (leb n e.count ≡ true) ⊎ (leb n e.count ≡ false)
      → e.count + granted (pos n) window k l ((t, key) ∷ rs)
        ≡ smaller n (e.count + requested k ((t, key) ∷ rs))
  unfolding granted requested
  own l e t key rs ih hit h bound before (inl full) =
      let here : l key ≡ some e = ap l ((text_eq_iff key k).0 hit) ∙ h in
      rw (hit, allow_full l t key n window e some_left here before (ground arith))
        (ground (arith, ih l e h bound refl))
  own l e t key rs ih hit h bound before (inr left) =
      let here : l key ≡ some e = ap l ((text_eq_iff key k).0 hit) ∙ h in
      let e' : Entry = record e { count = suc e.count } in
      let next : set_entry key e' l k ≡ some e' = rw hit refl in
      rw (hit, allow_open l t key n window e some_left here before (ground arith))
        (ground (arith, ih (set_entry key e' l) e' next (ground arith) refl))

  -- With a positive limit, while all requests come before the end of a key's window, whose count is at
  -- most the limit: those granted in it, with those before counted in, are the smaller of the limit and
  -- the number of the requests for the key, whatever other keys are used in between.
  pub granted_in_window :
      (l : Limiter) (e : Entry) (rs : List Request)
      → l k ≡ some e
      → e.count ≤ n
      → All (λ r. r.0 < e.reset_at) rs
      → e.count + granted (pos n) window k l rs ≡ smaller n (e.count + requested k rs)
  unfolding granted requested
  granted_in_window l e [] h bound open_ = ground arith
  granted_in_window l e ((t, key) ∷ rs) h bound open_ = elim (Bool-cases (text_eq key k)) [
    | inr miss ↦ rw miss (
        granted_in_window (allow l t key (pos n) window).1 e rs
          (allow_other l t key k (pos n) window miss ∙ h) bound open_.1)
    | inl hit ↦
        own l e t key rs
          (λ l' e' a b c.
            granted_in_window l' e' rs a b
              (subst (λ (m : ℕ). All (λ (r : Request). r.0 < m) rs) (sym c) open_.1))
          hit h bound open_.0 (Bool-cases (leb n e.count))
  ]

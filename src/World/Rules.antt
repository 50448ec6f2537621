-- ===== src/World/Rules.antt =====
-- Inversion of the steps of an action that returned, for proofs that keep the steps shut; and case
-- analysis on a step, for proofs about every outcome.
use go_identity_service.Base.{
  ◌≡◌, refl, ◌⊎◌, inl, inr, Bool, true, false, if◌then◌else◌, Option, none, some, List, [], ◌∷◌,
  arith, ℕ, ◌≤◌,
}
use go_identity_service.Apperror.{Error, external, Result, ok, err}
use go_identity_service.World.{
  World, M, ◌>>=◌, continue, recover, pure, fail, on_err, map_err, of_option, Answer, answered,
  refused, lost, next_answer, carry_out, call, read_delays, time_now,
}

pub pair_path : {A : Type 0} (p : Result A × World) {r : Result A} → p.0 ≡ r → p ≡ (r, p.1)
pair_path p e = λ i. (e i, p.1)

module _ {A B : Type 0} where
  continue-ok :
      (f : A → M B) (r : Result A) (w : World) {b : B} {w' : World}
      → continue r f w ≡ (ok b, w')
      → (a : A) × (r ≡ ok a) × (f a w ≡ (ok b, w'))
  continue-ok f (ok a) w h = (a, refl, h)
  continue-ok f (err e) w h = cc

  -- A block that returned: its first step did, and the rest from the state which that left.
  pub bind-ok :
      {Q : Type 0} (m : M A) (f : A → M B) (w : World) {b : B} {w' : World}
      → (m >>= f) w ≡ (ok b, w')
      → ((a : A) (v : World) → m w ≡ (ok a, v) → f a v ≡ (ok b, w') → Q)
      → Q
  unfolding ◌>>=◌
  bind-ok m f w h k =
      let (a, p, q) = continue-ok f (m w).0 (m w).1 h in k a (m w).1 (pair_path (m w) p) q

module _ {A : Type 0} where
  recover-ok :
      (h : Error → Error) (r : Result A) (w : World) {a : A} {w' : World}
      → recover r (λ e. fail (h e)) w ≡ (ok a, w')
      → ◌≡◌ {A = Result A × World} (r, w) (ok a, w')
  unfolding fail
  recover-ok h (ok a) w e = e
  recover-ok h (err x) w e = cc

  pub map_err-ok :
      (h : Error → Error) (m : M A) (w : World) {a : A} {w' : World}
      → map_err h m w ≡ (ok a, w')
      → m w ≡ (ok a, w')
  unfolding on_err
  map_err-ok h m w e = recover-ok h (m w).0 (m w).1 e

  pub fail-ok : (e : Error) (w : World) {a : A} {w' : World} → fail e w ≡ (ok a, w') → ⊥
  unfolding fail
  fail-ok e w h = cc

  pub pure-ok :
      (a : A) (w : World) {b : A} {w' : World} → pure a w ≡ (ok b, w') → (a ≡ b) × (w ≡ w')
  unfolding pure
  pure-ok a w h = ground arith

  -- A guard that returns early with an error.
  pub unless-ok :
      (b : Bool) (e : Error) (m : M A) (w : World) {a : A} {w' : World}
      → (if b then fail e else m) w ≡ (ok a, w')
      → (b ≡ false) × (m w ≡ (ok a, w'))
  unless-ok true e m w h = absurd (fail-ok e w h)
  unless-ok false e m w h = (refl, h)

  pub of_option-ok :
      (o : Option A) (w : World) {a : A} {w' : World}
      → of_option o w ≡ (ok a, w')
      → (o ≡ some a) × (w' ≡ w)
  unfolding of_option
  of_option-ok none w h = cc
  of_option-ok (some a) w h = ground arith

  carry_out-ok :
      (x : Answer) (op : M A) (w : World) {a : A} {w' : World}
      → carry_out x op w ≡ (ok a, w')
      → op w ≡ (ok a, w')
  carry_out-ok answered op w h = h
  carry_out-ok refused op w h = cc
  carry_out-ok lost op w h = cc

  -- A call that returned was carried out, from the same state but for the answer that it took.
  pub call-ok :
      (op : M A) (w : World) {a : A} {w' : World}
      → call op w ≡ (ok a, w')
      → (rest : List Answer) × (op (record w { answers = rest }) ≡ (ok a, w'))
  unfolding call
  call-ok op w h = go w.answers h
    where
      go :
          (l : List Answer) {a : A} {w' : World}
          → carry_out (next_answer l w).0 op (next_answer l w).1 ≡ (ok a, w')
          → (rest : List Answer) × (op (record w { answers = rest }) ≡ (ok a, w'))
      go [] e = (w.answers, e)
      go (x ∷ rest) e = (rest, carry_out-ok x op (record w { answers = rest }) e)

module _ {A B : Type 0} (Q : Result B × World → Type 0) where
  continue_cases :
      (f : A → M B) (r : Result A) (w' : World)
      → ((a : A) → r ≡ ok a → Q (f a w'))
      → ((e : Error) → r ≡ err e → Q (err e, w'))
      → Q (continue r f w')
  continue_cases f (ok a) w' good bad = good a refl
  continue_cases f (err e) w' good bad = bad e refl

  pub bind_cases :
      (m : M A) (f : A → M B) (w : World)
      → ((a : A) → (m w).0 ≡ ok a → Q (f a (m w).1))
      → ((e : Error) → (m w).0 ≡ err e → Q (err e, (m w).1))
      → Q ((m >>= f) w)
  unfolding ◌>>=◌
  bind_cases m f w good bad = continue_cases f (m w).0 (m w).1 good bad

module _ {A : Type 0} (Q : Result A × World → Type 0) where
  recover_cases :
      (h : Error → M A) (r : Result A) (w' : World)
      → ((a : A) → r ≡ ok a → Q (ok a, w'))
      → ((e : Error) → r ≡ err e → Q (h e w'))
      → Q (recover r h w')
  recover_cases h (ok a) w' good bad = good a refl
  recover_cases h (err e) w' good bad = bad e refl

  pub on_err_cases :
      (m : M A) (h : Error → M A) (w : World)
      → ((a : A) → (m w).0 ≡ ok a → Q (ok a, (m w).1))
      → ((e : Error) → (m w).0 ≡ err e → Q (h e (m w).1))
      → Q (on_err m h w)
  unfolding on_err
  on_err_cases m h w good bad = recover_cases h (m w).0 (m w).1 good bad

read_delays-ok :
    (l : List ℕ) (w : World) {t : ℕ} {w' : World}
    → read_delays l w ≡ (ok t, w')
    → (w'.tables ≡ w.tables) × (w.clock ≤ t) × (w'.clock ≡ t)
read_delays-ok [] w h = ground arith
read_delays-ok (d ∷ rest) w h = ground arith

-- Time does not run backwards, and reading it writes nothing.
pub time_now-ok :
    (w : World) {t : ℕ} {w' : World}
    → time_now w ≡ (ok t, w')
    → (w'.tables ≡ w.tables) × (w.clock ≤ t) × (w'.clock ≡ t)
unfolding time_now
time_now-ok w h = read_delays-ok w.delays w h

-- A call when no failure is to come.
pub call_answered : {A : Type 0} (op : M A) (w : World) → w.answers ≡ [] → call op w ≡ op w
unfolding call
call_answered op w h = go w.answers h
  where
    go : (l : List Answer) → l ≡ [] → carry_out (next_answer l w).0 op (next_answer l w).1 ≡ op w
    go [] p = refl
    go (a ∷ rest) p = cc

-- A call was carried out, from the same state but for the answer that it took, or it failed.
pub call_cases :
    {A : Type 0} (op : M A) (w : World)
    → ((rest : List Answer) × (call op w ≡ op (record w { answers = rest })))
      ⊎ ((call op w).0 ≡ err external)
unfolding call
call_cases op w = go w.answers refl
  where
    go :
        (l : List Answer)
        → w.answers ≡ l
        → ((rest : List Answer) × (carry_out (next_answer l w).0 op (next_answer l w).1
              ≡ op (record w { answers = rest })))
          ⊎ ((carry_out (next_answer l w).0 op (next_answer l w).1).0 ≡ err external)
    go [] p = inl (w.answers, refl)
    go (answered ∷ rest) p = inl (rest, refl)
    go (refused ∷ rest) p = inr refl
    go (lost ∷ rest) p = inr refl

-- ===== src/World/Keeps.antt =====
-- What an action leaves alone, whether it returns or fails: one rule for each way to build one.
use go_identity_service.Base.{
  ◌≡◌, refl, ◌∙◌, Bool, true, false, Option, none, some, List, [], ◌∷◌, ℕ, if◌then◌else◌,
}
use go_identity_service.Apperror.{Error, Result, ok, err}
use go_identity_service.World.{
  World, M, ◌>>=◌, continue, recover, pure, fail, on_err, attempt, of_option, Answer, answered,
  refused, lost, next_answer, carry_out, call, Tables, begin, begin_with, rollback, rollback_with,
  commit, commit_with,
}

-- `m` does not change what `f` reads of the world.
pub record Keeps {A X : Type 0} (f : World → X) (m : M A) : Type 0 where
  pub at : (w : World) → f (m w).1 ≡ f w

module _ {A X : Type 0} {f : World → X} where
  pub Keeps-pure : (a : A) → Keeps f (pure a)
  unfolding pure
  Keeps-pure a = record { at = λ w. refl }

  pub Keeps-fail : (e : Error) → Keeps f (fail {A = A} e)
  unfolding fail
  Keeps-fail e = record { at = λ w. refl }

  pub Keeps-of_option : (o : Option A) → Keeps f (of_option o)
  unfolding of_option
  Keeps-of_option none = record { at = λ w. refl }
  Keeps-of_option (some a) = record { at = λ w. refl }

  pub Keeps-if : (b : Bool) (m n : M A) → Keeps f m → Keeps f n → Keeps f (if b then m else n)
  Keeps-if true m n km kn = km
  Keeps-if false m n km kn = kn

  pub Keeps-attempt : (m : M A) → Keeps f m → Keeps f (attempt m)
  unfolding attempt
  Keeps-attempt m k = record { at = λ w. k.at w }

  recover-at :
      (h : Error → M A)
      → ((e : Error) → Keeps f (h e))
      → (r : Result A) (w : World) → f (recover r h w).1 ≡ f w
  recover-at h kh (ok a) w = refl
  recover-at h kh (err e) w = (kh e).at w

  pub Keeps-on_err :
      (m : M A) (h : Error → M A) → Keeps f m → ((e : Error) → Keeps f (h e)) → Keeps f (on_err m h)
  unfolding on_err
  Keeps-on_err m h km kh = record { at = λ w. recover-at h kh (m w).0 (m w).1 ∙ km.at w }

module _ {A B X : Type 0} {f : World → X} where
  continue-at :
      (g : A → M B)
      → ((a : A) → Keeps f (g a))
      → (r : Result A) (w : World) → f (continue r g w).1 ≡ f w
  continue-at g kg (ok a) w = (kg a).at w
  continue-at g kg (err e) w = refl

  pub Keeps-bind :
      (m : M A) (g : A → M B) → Keeps f m → ((a : A) → Keeps f (g a)) → Keeps f (m >>= g)
  unfolding ◌>>=◌
  Keeps-bind m g km kg = record { at = λ w. continue-at g kg (m w).0 (m w).1 ∙ km.at w }

-- What does not depend on the answers that are left is kept by a call of an action that keeps it.
pub record IgnoresAnswers {X : Type 0} (f : World → X) : Type 0 where
  pub at : (w : World) (l : List Answer) → f (record w { answers = l }) ≡ f w

module _ {A X : Type 0} {f : World → X} where
  carry_out-at : (x : Answer) (op : M A) → Keeps f op → (w : World) → f (carry_out x op w).1 ≡ f w
  carry_out-at answered op k w = k.at w
  carry_out-at refused op k w = refl
  carry_out-at lost op k w = k.at w

  call-at :
      (op : M A)
      → IgnoresAnswers f
      → Keeps f op
      → (l : List Answer) (w : World)
      → f (carry_out (next_answer l w).0 op (next_answer l w).1).1 ≡ f w
  call-at op i k [] w = k.at w
  call-at op i k (x ∷ rest) w = carry_out-at x op k (record w { answers = rest }) ∙ i.at w rest

  pub Keeps-call : (op : M A) → IgnoresAnswers f → Keeps f op → Keeps f (call op)
  unfolding call
  Keeps-call op i k = record { at = λ w. call-at op i k w.answers w }

pub ruleset keeps_rules = (
  Keeps-pure, Keeps-fail, Keeps-of_option, Keeps-if, Keeps-attempt, Keeps-on_err, Keeps-bind,
  Keeps-call,
)

-- What a transaction's begin, rollback and commit do not touch.
pub record IgnoresTx {X : Type 0} (f : World → X) : Type 0 where
  pub at :
      (w : World) (t : Tables) (s : Option ℕ) (l : List Answer)
      → f (record w { tables = t; tx_started = s; answers = l }) ≡ f w

module _ {X : Type 0} {f : World → X} (i : IgnoresTx f) where
  pub Keeps-begin : Keeps f begin
  unfolding begin
  Keeps-begin = record { at = λ w. go w w.answers }
    where
      one :
          (w : World) (x : Answer) (l : List Answer)
          → f (begin_with x (record w { answers = l })).1 ≡ f w
      one w answered l = i.at w w.tables (some w.clock) l
      one w refused l = i.at w w.tables w.tx_started l
      one w lost l = i.at w w.tables w.tx_started l

      go :
          (w : World) (l : List Answer)
          → f (begin_with (next_answer l w).0 (next_answer l w).1).1 ≡ f w
      go w [] = one w answered w.answers
      go w (x ∷ l) = one w x l

  pub Keeps-rollback : (t : Tables) → Keeps f (rollback t)
  unfolding rollback
  Keeps-rollback t = record { at = λ w. go w w.answers }
    where
      one :
          (w : World) (x : Answer) (l : List Answer)
          → f (rollback_with t x (record w { answers = l })).1 ≡ f w
      one w answered l = i.at w t none l
      one w refused l = i.at w t none l
      one w lost l = i.at w t none l

      go :
          (w : World) (l : List Answer)
          → f (rollback_with t (next_answer l w).0 (next_answer l w).1).1 ≡ f w
      go w [] = one w answered w.answers
      go w (x ∷ l) = one w x l

  pub Keeps-commit : (t : Tables) → Keeps f (commit t)
  unfolding commit
  Keeps-commit t = record { at = λ w. go w w.answers }
    where
      one :
          (w : World) (x : Answer) (l : List Answer)
          → f (commit_with t x (record w { answers = l })).1 ≡ f w
      one w answered l = i.at w w.tables none l
      one w refused l = i.at w t none l
      one w lost l = i.at w w.tables none l

      go :
          (w : World) (l : List Answer)
          → f (commit_with t (next_answer l w).0 (next_answer l w).1).1 ≡ f w
      go w [] = one w answered w.answers
      go w (x ∷ l) = one w x l

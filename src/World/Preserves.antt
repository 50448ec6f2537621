-- ===== src/World/Preserves.antt =====
-- A property of the tables that an action keeps true, whether it returns or fails: one rule for each
-- way to build an action.
use go_identity_service.Base.{
  sym, subst, Bool, true, false, Option, none, some, List, [], ◌∷◌, if◌then◌else◌,
}
use go_identity_service.Apperror.{Error, Result, ok, err}
use go_identity_service.World.{
  World, M, ◌>>=◌, continue, recover, pure, fail, on_err, attempt, of_option, Answer, answered,
  refused, lost, next_answer, carry_out, call, Tables,
}
use go_identity_service.World.Keeps.{Keeps}
use go_identity_service.World.Transaction.{TxOutcome, committed, in_doubt, rolled_back}

pub record Preserves {A : Type 0} (P : Tables → Type 0) (m : M A) : Type 0 where
  pub at : (w : World) → P w.tables → P (m w).1.tables

module _ {A : Type 0} {P : Tables → Type 0} where
  -- What leaves the tables alone.
  pub Keeps-Preserves : (m : M A) → Keeps (λ w. w.tables) m → Preserves P m
  Keeps-Preserves m k = record { at = λ w h. subst P (sym (k.at w)) h }

  pub Preserves-pure : (a : A) → Preserves P (pure a)
  unfolding pure
  Preserves-pure a = record { at = λ w h. h }

  pub Preserves-fail : (e : Error) → Preserves P (fail {A = A} e)
  unfolding fail
  Preserves-fail e = record { at = λ w h. h }

  pub Preserves-of_option : (o : Option A) → Preserves P (of_option o)
  unfolding of_option
  Preserves-of_option none = record { at = λ w h. h }
  Preserves-of_option (some a) = record { at = λ w h. h }

  pub Preserves-if :
      (b : Bool) (m n : M A) → Preserves P m → Preserves P n → Preserves P (if b then m else n)
  Preserves-if true m n pm pn = pm
  Preserves-if false m n pm pn = pn

  pub Preserves-attempt : (m : M A) → Preserves P m → Preserves P (attempt m)
  unfolding attempt
  Preserves-attempt m k = record { at = λ w h. k.at w h }

  recover-at :
      (h : Error → M A)
      → ((e : Error) → Preserves P (h e))
      → (r : Result A) (w : World) → P w.tables
      → P (recover r h w).1.tables
  recover-at h kh (ok a) w p = p
  recover-at h kh (err e) w p = (kh e).at w p

  pub Preserves-on_err :
      (m : M A) (h : Error → M A)
      → Preserves P m
      → ((e : Error) → Preserves P (h e))
      → Preserves P (on_err m h)
  unfolding on_err
  Preserves-on_err m h km kh = record { at = λ w p. recover-at h kh (m w).0 (m w).1 (km.at w p) }

  call-at :
      (op : M A)
      → Preserves P op
      → (l : List Answer) (w : World) → P w.tables
      → P (carry_out (next_answer l w).0 op (next_answer l w).1).1.tables
  call-at op k [] w p = k.at w p
  call-at op k (answered ∷ rest) w p = k.at (record w { answers = rest }) p
  call-at op k (refused ∷ rest) w p = p
  call-at op k (lost ∷ rest) w p = k.at (record w { answers = rest }) p

  pub Preserves-call : (op : M A) → Preserves P op → Preserves P (call op)
  unfolding call
  Preserves-call op k = record { at = λ w p. call-at op k w.answers w p }

  -- A transaction whose body preserves the property.
  pub TxOutcome-Preserves :
      (fn : M A) {w : World} {r : Result A × World}
      → Preserves P fn
      → TxOutcome fn w r
      → P w.tables
      → P r.1.tables
  TxOutcome-Preserves fn k (committed rest v a p t e) h =
      subst P (sym t) (subst (λ (y : Result A × World). P y.1.tables) p (k.at _ h))
  TxOutcome-Preserves fn k (in_doubt rest v a e starts p reply t q) h =
      subst P (sym t) (subst (λ (y : Result A × World). P y.1.tables) p (k.at _ h))
  TxOutcome-Preserves fn k (rolled_back e t q) h = subst P (sym t) h

module _ {A B : Type 0} {P : Tables → Type 0} where
  continue-at :
      (g : A → M B)
      → ((a : A) → Preserves P (g a))
      → (r : Result A) (w : World) → P w.tables
      → P (continue r g w).1.tables
  continue-at g kg (ok a) w p = (kg a).at w p
  continue-at g kg (err e) w p = p

  pub Preserves-bind :
      (m : M A) (g : A → M B)
      → Preserves P m
      → ((a : A) → Preserves P (g a))
      → Preserves P (m >>= g)
  unfolding ◌>>=◌
  Preserves-bind m g km kg = record { at = λ w p. continue-at g kg (m w).0 (m w).1 (km.at w p) }

pub ruleset preserves_rules = (
  Preserves-pure, Preserves-fail, Preserves-of_option, Preserves-if, Preserves-attempt,
  Preserves-on_err, Preserves-bind, Preserves-call,
)

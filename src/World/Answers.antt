-- ===== src/World/Answers.antt =====
-- Which of the answers of the third parties an action takes: the first ones, and it leaves the rest.
use go_identity_service.Base.{
  ◌≡◌, refl, sym, subst, Bool, true, false, Option, none, some, List, [], ◌∷◌, if◌then◌else◌,
}
use go_identity_service.Apperror.{Error, Result, ok, err}
use go_identity_service.World.{
  World, M, ◌>>=◌, continue, recover, pure, fail, on_err, of_option, Answer, answered, refused,
  lost, next_answer, carry_out, call,
}
use go_identity_service.World.Keeps.{Keeps}

-- The second list is what is left of the first when some answers were taken.
pub data Leaves : List Answer → List Answer → Type 0 where
  same : {l : List Answer} → Leaves l l
  more : {x : Answer} {l left : List Answer} → Leaves l left → Leaves (x ∷ l) left

pub Leaves-Leaves : {l m n : List Answer} → Leaves l m → Leaves m n → Leaves l n
Leaves-Leaves same k = k
Leaves-Leaves (more h) k = more (Leaves-Leaves h k)

pub record Takes {A : Type 0} (m : M A) : Type 0 where
  pub at : (w : World) → Leaves w.answers (m w).1.answers

module _ {A : Type 0} where
  pub Keeps-Takes : (m : M A) → Keeps (λ w. w.answers) m → Takes m
  Keeps-Takes m k = record { at = λ w. subst (Leaves w.answers) (sym (k.at w)) same }

  pub Takes-pure : (a : A) → Takes (pure a)
  unfolding pure
  Takes-pure a = record { at = λ w. same }

  pub Takes-fail : (e : Error) → Takes (fail {A = A} e)
  unfolding fail
  Takes-fail e = record { at = λ w. same }

  pub Takes-of_option : (o : Option A) → Takes (of_option o)
  unfolding of_option
  Takes-of_option none = record { at = λ w. same }
  Takes-of_option (some a) = record { at = λ w. same }

  pub Takes-if : (b : Bool) (m n : M A) → Takes m → Takes n → Takes (if b then m else n)
  Takes-if true m n tm tn = tm
  Takes-if false m n tm tn = tn

  recover-Leaves :
      (h : Error → M A)
      → ((e : Error) → Takes (h e))
      → (r : Result A) (w : World) → Leaves w.answers (recover r h w).1.answers
  recover-Leaves h th (ok a) w = same
  recover-Leaves h th (err e) w = (th e).at w

  pub Takes-on_err :
      (m : M A) (h : Error → M A) → Takes m → ((e : Error) → Takes (h e)) → Takes (on_err m h)
  unfolding on_err
  Takes-on_err m h tm th = record {
    at = λ w. Leaves-Leaves (tm.at w) (recover-Leaves h th (m w).0 (m w).1);
  }

  call-Leaves :
      (op : M A)
      → Takes op
      → (l : List Answer) (w : World) → w.answers ≡ l
      → Leaves l (carry_out (next_answer l w).0 op (next_answer l w).1).1.answers
  call-Leaves op t [] w p = subst (λ l. Leaves l (op w).1.answers) p (t.at w)
  call-Leaves op t (answered ∷ rest) w p = more (t.at (record w { answers = rest }))
  call-Leaves op t (refused ∷ rest) w p = more same
  call-Leaves op t (lost ∷ rest) w p = more (t.at (record w { answers = rest }))

  pub Takes-call : (op : M A) → Takes op → Takes (call op)
  unfolding call
  Takes-call op t = record { at = λ w. call-Leaves op t w.answers w refl }

module _ {A B : Type 0} where
  continue-Leaves :
      (g : A → M B)
      → ((a : A) → Takes (g a))
      → (r : Result A) (w : World) → Leaves w.answers (continue r g w).1.answers
  continue-Leaves g tg (ok a) w = (tg a).at w
  continue-Leaves g tg (err e) w = same

  pub Takes-bind : (m : M A) (g : A → M B) → Takes m → ((a : A) → Takes (g a)) → Takes (m >>= g)
  unfolding ◌>>=◌
  Takes-bind m g tm tg = record {
    at = λ w. Leaves-Leaves (tm.at w) (continue-Leaves g tg (m w).0 (m w).1);
  }

pub ruleset takes_rules =
    (Takes-pure, Takes-fail, Takes-of_option, Takes-if, Takes-on_err, Takes-bind, Takes-call)

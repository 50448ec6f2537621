-- ===== src/World/Triples.antt =====
-- What an action makes of a condition on the state: one condition if it returns, another if it fails.
use go_identity_service.Base.{◌≡◌, sym, subst, Bool, true, false, if◌then◌else◌, []}
use go_identity_service.Apperror.{Error, Result, ok, err}
use go_identity_service.World.{
  World, M, ◌>>=◌, continue, recover, pure, fail, on_err, map_err, attempt, call,
}
use go_identity_service.World.Rules.{call_answered}

abbrev pub Ends : {A : Type 0} → (World → Type 0) → (A → World → Type 0) → Result A → World → Type 0
Ends I Q (ok a) w = Q a w
Ends I Q (err e) w = I w

pub record Triple {A : Type 0} (I P : World → Type 0) (m : M A) (Q : A → World → Type 0)
    : Type 0 where
  pub at : (w : World) → P w → Ends I Q (m w).0 (m w).1

Ends-recover :
    {A : Type 0} (I : World → Type 0) (Q : A → World → Type 0) (h : Error → Error) (r : Result A)
    (w : World)
    → Ends I Q r w
    → Ends I Q (recover r (λ e. fail (h e)) w).0 (recover r (λ e. fail (h e)) w).1
unfolding fail
Ends-recover I Q h (ok a) w p = p
Ends-recover I Q h (err e) w p = p

Ends-continue :
    {A B : Type 0} (I : World → Type 0) (R : A → World → Type 0) (Q : B → World → Type 0)
    (f : A → M B) (r : Result A) (w : World)
    → ((a : A) → Triple I (R a) (f a) Q)
    → Ends I R r w
    → Ends I Q (continue r f w).0 (continue r f w).1
Ends-continue I R Q f (ok a) w t p = (t a).at w p
Ends-continue I R Q f (err e) w t p = p

Ends-attempt :
    {A : Type 0} (I : World → Type 0) (r : Result A) (w : World) → Ends I (λ _. I) r w → I w
Ends-attempt I (ok a) w p = p
Ends-attempt I (err e) w p = p

-- An action whose failures are passed over.
pub Triple-attempt :
    {A : Type 0} {I P : World → Type 0} (m : M A)
    → Triple I P m (λ _. I)
    → Triple I P (attempt m) (λ _. I)
unfolding attempt
Triple-attempt {I = I} m t = record { at = λ w p. Ends-attempt I (m w).0 (m w).1 (t.at w p) }

module _ {A : Type 0} {I : World → Type 0} {Q : A → World → Type 0} where
  pub Triple-pure : (a : A) → Triple I (Q a) (pure a) Q
  unfolding pure
  Triple-pure a = record { at = λ w h. h }

  pub Triple-fail : (e : Error) → Triple I I (fail e) Q
  unfolding fail
  Triple-fail e = record { at = λ w h. h }

  pub Triple-weaken :
      {P P' : World → Type 0} {m : M A}
      → ((w : World) → P' w → P w)
      → Triple I P m Q
      → Triple I P' m Q
  Triple-weaken weaken t = record { at = λ w p. t.at w (weaken w p) }

  pub Triple-if :
      {P : World → Type 0} (b : Bool) (m n : M A)
      → Triple I P m Q
      → Triple I P n Q
      → Triple I P (if b then m else n) Q
  Triple-if true m n tm tn = tm
  Triple-if false m n tm tn = tn

  pub Triple-map_err :
      {P : World → Type 0} (h : Error → Error) (m : M A)
      → Triple I P m Q
      → Triple I P (map_err h m) Q
  unfolding on_err
  Triple-map_err h m t = record { at = λ w p. Ends-recover I Q h (m w).0 (m w).1 (t.at w p) }

  -- A call, where no failure is to come.
  pub Triple-call :
      {P : World → Type 0} (op : M A)
      → ((w : World) → P w → w.answers ≡ [])
      → Triple I P op Q
      → Triple I P (call op) Q
  Triple-call op quiet t = record {
    at = λ w p.
        subst (λ (r : Result A × World). Ends I Q r.0 r.1) (sym (call_answered op w (quiet w p)))
          (t.at w p);
  }

module _ {A B : Type 0} {I P : World → Type 0} {R : A → World → Type 0}
    {Q : B → World → Type 0} where
  pub Triple-bind :
      (m : M A) (f : A → M B)
      → Triple I P m R
      → ((a : A) → Triple I (R a) (f a) Q)
      → Triple I P (m >>= f) Q
  unfolding ◌>>=◌
  Triple-bind m f tm tf = record {
    at = λ w p. Ends-continue I R Q f (m w).0 (m w).1 tf (tm.at w p);
  }

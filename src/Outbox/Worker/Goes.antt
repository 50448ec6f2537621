-- ===== src/Outbox/Worker/Goes.antt =====
-- Actions that move the outbox and the topic by steps of the protocol, one rule for each way to build
-- one.
use go_identity_service.Base.{ℕ, ◌≡◌, refl, sym, ◌∙◌, subst, List, [], ◌∷◌}
use go_identity_service.Apperror.{Error, Result, ok, err}
use go_identity_service.World.{
  World, M, ◌>>=◌, continue, recover, fail, on_err, map_err, Answer, answered, refused, lost,
  next_answer, carry_out, call,
}
use go_identity_service.World.Keeps.{Keeps}
use go_identity_service.Outbox.Protocol.{State, Steps, start}

-- The part of the world that the protocol is about.
abbrev pub view : World → State
view w = (w.tables.outbox_events, w.topic)

module _ {A : Type 0} where
  recover-at :
      (h : Error → Error) (r : Result A) (w : World)
      → view (recover r (λ e. fail {A = A} (h e)) w).1 ≡ view w
  unfolding fail
  recover-at h (ok a) w = refl
  recover-at h (err e) w = refl

module _ {A B : Type 0} where
  continue-at :
      (f : A → M B)
      → ((a : A) → Keeps view (f a))
      → (r : Result A) (w : World) → view (continue r f w).1 ≡ view w
  continue-at f k (ok a) w = (k a).at w
  continue-at f k (err e) w = refl

-- From any world with this view, the action takes steps of the protocol.
pub record Goes (m : ℕ) (s : State) {A : Type 0} (act : M A) : Type 0 where
  pub at : (w : World) → view w ≡ s → Steps m s (view (act w).1)

module _ {m : ℕ} {s : State} where
  stays : {t : State} → t ≡ s → Steps m s t
  stays h = rw h start

  module _ {A : Type 0} where
    pub Goes-Keeps : (act : M A) → Keeps view act → Goes m s act
    Goes-Keeps act k = record { at = λ w h. stays (rw (k.at w) h) }

    pub Goes-from :
        (act : M A) → ((w : World) → view w ≡ s → Steps m (view w) (view (act w).1)) → Goes m s act
    Goes-from act h = record { at = λ w p. subst (λ t. Steps m t (view (act w).1)) p (h w p) }

    pub Goes-map_err : (h : Error → Error) (act : M A) → Goes m s act → Goes m s (map_err h act)
    unfolding on_err
    Goes-map_err h act g = record {
      at = λ w p. subst (Steps m s) (sym (recover-at h (act w).0 (act w).1)) (g.at w p);
    }

    carry_out-at :
        (x : Answer) (op : M A)
        → Goes m s op
        → (w : World) → view w ≡ s
        → Steps m s (view (carry_out x op w).1)
    carry_out-at answered op g w p = g.at w p
    carry_out-at refused op g w p = stays p
    carry_out-at lost op g w p = g.at w p

    pub Goes-call : (op : M A) → Goes m s op → Goes m s (call op)
    unfolding call
    Goes-call op g = record { at = λ w p. go w w.answers p }
      where
        go :
            (w : World) (l : List Answer)
            → view w ≡ s
            → Steps m s (view (carry_out (next_answer l w).0 op (next_answer l w).1).1)
        go w [] p = g.at w p
        go w (x ∷ rest) p = carry_out-at x op g (record w { answers = rest }) p

  module _ {A B : Type 0} where
    -- Steps, and then nothing that the protocol sees.
    pub Goes-then :
        (act : M A) (f : A → M B)
        → Goes m s act
        → ((a : A) → Keeps view (f a))
        → Goes m s (act >>= f)
    unfolding ◌>>=◌
    Goes-then act f g k = record {
      at = λ w p. subst (Steps m s) (sym (continue-at f k (act w).0 (act w).1)) (g.at w p);
    }

    -- Nothing that the protocol sees, and then steps.
    pub Goes-after :
        (act : M A) (f : A → M B)
        → Keeps view act
        → ((a : A) → Goes m s (f a))
        → Goes m s (act >>= f)
    unfolding ◌>>=◌
    Goes-after act f k g = record { at = λ w p. go (act w).0 (act w).1 (k.at w ∙ p) }
      where
        go : (r : Result A) (v : World) → view v ≡ s → Steps m s (view (continue r f v).1)
        go (ok a) v p = (g a).at v p
        go (err e) v p = stays p

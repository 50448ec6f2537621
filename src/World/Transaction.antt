-- ===== src/World/Transaction.antt =====
-- The outcome of a transaction, which the three versions of WithinTx share.
use go_identity_service.Base.{◌≡◌, refl, ◌⊎◌, inl, inr, sym, ◌∙◌, subst, some, List, [], ◌∷◌}
use go_identity_service.Apperror.{Error, external, Result, ok, err}
use go_identity_service.World.{
  World, Tables, M, Answer, answered, refused, lost, next_answer, begin, begin_with, rollback,
  rollback_with, commit, commit_with, ◌>>=◌,
}
use go_identity_service.World.Keeps.{Keeps}
use go_identity_service.World.Answers.{Leaves, same, more, Leaves-Leaves, Takes}
use go_identity_service.World.Rules.{bind_cases, pair_path}

-- The state in which the body of a transaction starts.
abbrev pub opened : World → List Answer → World
opened w rest = record w { answers = rest; tx_started = some w.clock }

-- A transaction commits all that its body wrote and returns the body's result, or it fails and
-- leaves the tables as they were, or its commit is lost on the way: then it fails, and all is written.
pub data TxOutcome {A : Type 0} (fn : M A) (w : World) (r : Result A × World) : Type 0 where
  committed :
      (rest : List Answer) (v : World) (a : A)
      → fn (opened w rest) ≡ (ok a, v)
      → r.1.tables ≡ v.tables
      → r.0 ≡ ok a
      → TxOutcome fn w r
  in_doubt :
      (rest : List Answer) (v : World) (a : A) (e : Error)
      → Leaves w.answers rest
      → fn (opened w rest) ≡ (ok a, v)
      → v.answers ≡ lost ∷ r.1.answers
      → r.1.tables ≡ v.tables
      → r.0 ≡ err e
      → TxOutcome fn w r
  rolled_back : (e : Error) → r.1.tables ≡ w.tables → r.0 ≡ err e → TxOutcome fn w r

-- What `begin` does: it fails and keeps the tables, or opens the transaction and returns them.
abbrev pub Begins : World → Result Tables × World → Type 0
Begins w r =
    ((e : Error) × (r.0 ≡ err e) × (r.1.tables ≡ w.tables))
    ⊎ ((rest : List Answer) × Leaves w.answers rest × (r ≡ (ok w.tables, opened w rest)))

pub begin-Begins : (w : World) → Begins w (begin w)
unfolding begin
begin-Begins w = go w.answers refl
  where
    one :
        (x : Answer) (rest : List Answer)
        → w.answers ≡ x ∷ rest
        → Begins w (begin_with x (record w { answers = rest }))
    one answered rest p = inr (rest, subst (λ l. Leaves l rest) (sym p) (more same), refl)
    one refused rest p = inl (external, refl, refl)
    one lost rest p = inl (external, refl, refl)

    go :
        (l : List Answer)
        → w.answers ≡ l
        → Begins w (begin_with (next_answer l w).0 (next_answer l w).1)
    go [] p = inr (w.answers, same, refl)
    go (x ∷ rest) p = one x rest p

pub tables-rollback : (snapshot : Tables) (w : World) → (rollback snapshot w).1.tables ≡ snapshot
unfolding rollback
tables-rollback snapshot w = go (next_answer w.answers w).0 (next_answer w.answers w).1
  where
    go : (x : Answer) (v : World) → (rollback_with snapshot x v).1.tables ≡ snapshot
    go answered v = refl
    go refused v = refl
    go lost v = refl

abbrev pub Commits : Tables → World → Result (Unit {0}) × World → Type 0
Commits snapshot w r =
    ((r.0 ≡ ok tt) × (r.1.tables ≡ w.tables))
    ⊎ ((r.0 ≡ err external)
        × ((r.1.tables ≡ snapshot) ⊎ ((r.1.tables ≡ w.tables) × (w.answers ≡ lost ∷ r.1.answers))))

pub commit-Commits : (snapshot : Tables) (w : World) → Commits snapshot w (commit snapshot w)
unfolding commit
commit-Commits snapshot w = go w.answers refl
  where
    one :
        (x : Answer) (rest : List Answer)
        → w.answers ≡ x ∷ rest
        → Commits snapshot w (commit_with snapshot x (record w { answers = rest }))
    one answered rest p = inl (refl, refl)
    one refused rest p = inr (refl, inl refl)
    one lost rest p = inr (refl, inr (refl, p))

    go :
        (l : List Answer)
        → w.answers ≡ l
        → Commits snapshot w (commit_with snapshot (next_answer l w).0 (next_answer l w).1)
    go [] p = inl (refl, refl)
    go (x ∷ rest) p = one x rest p

-- An action returns and has done `Done`, or fails and leaves the tables as they were, or fails and
-- has done `Done` when the reply to the last of its calls was lost.
pub data AllOrNothing {A : Type 0} (Done : Tables → Tables → A → Type 0) (w : World)
    (r : Result A × World) : Type 0 where
  done : (a : A) → r.0 ≡ ok a → Done w.tables r.1.tables a → AllOrNothing Done w r
  failed : (e : Error) → r.0 ≡ err e → r.1.tables ≡ w.tables → AllOrNothing Done w r
  unreported :
      (a : A) (e : Error)
      → r.0 ≡ err e
      → Leaves w.answers (lost ∷ r.1.answers)
      → Done w.tables r.1.tables a
      → AllOrNothing Done w r

module _ {A : Type 0} (Done : Tables → Tables → A → Type 0) (fn : M A) (w : World) where
  pub TxOutcome-AllOrNothing :
      {r : Result A × World}
      → Takes fn
      → ((rest : List Answer) (a : A) (v' : World)
          → fn (opened w rest) ≡ (ok a, v')
          → Done w.tables v'.tables a)
      → TxOutcome fn w r
      → AllOrNothing Done w r
  TxOutcome-AllOrNothing takes body (committed rest v a p t e) = done a e (rw t (body rest a v p))
  TxOutcome-AllOrNothing {r} takes body (in_doubt rest v a e starts p reply t q) =
      unreported a e q
        (Leaves-Leaves starts (
          subst (Leaves rest) reply (
            subst (λ (y : Result A × World). Leaves rest y.1.answers) p
              (takes.at (opened w rest)))))
        (rw t (body rest a v p))
  TxOutcome-AllOrNothing takes body (rolled_back e t q) = failed e q t

-- What held from a later state on, with the same tables.
AllOrNothing-later :
    {B : Type 0} (Done : Tables → Tables → B → Type 0) {v w : World} {r : Result B × World}
    → v.tables ≡ w.tables
    → Leaves w.answers v.answers
    → AllOrNothing Done v r
    → AllOrNothing Done w r
AllOrNothing-later Done {r = r} p l (done a q d) = done a q (subst (λ t. Done t r.1.tables a) p d)
AllOrNothing-later Done p l (failed e q t) = failed e q (t ∙ p)
AllOrNothing-later Done {r = r} p l (unreported a e q reply d) =
    unreported a e q (Leaves-Leaves l reply) (subst (λ t. Done t r.1.tables a) p d)

module _ {A B : Type 0} (Done : Tables → Tables → B → Type 0) where
  -- What comes before the transaction and writes to no table.
  pub AllOrNothing-bind :
      (m : M A) (f : A → M B) (w : World)
      → Keeps (λ v. v.tables) m
      → Takes m
      → ((a : A) → m w ≡ (ok a, (m w).1) → AllOrNothing Done (m w).1 (f a (m w).1))
      → AllOrNothing Done w ((m >>= f) w)
  AllOrNothing-bind m f w k takes body =
      bind_cases (AllOrNothing Done w) m f w
        (λ a p. AllOrNothing-later Done (k.at w) (takes.at w) (body a (pair_path (m w) p)))
        (λ e p. failed e refl (k.at w))

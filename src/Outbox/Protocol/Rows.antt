-- ===== src/Outbox/Protocol/Rows.antt =====
-- How the rows of the outbox correspond across a move, and moves from UPDATE statements.
use go_identity_service.Base.{
  ℕ, ◌≡◌, refl, Bool, true, false, Bool-cases, ◌⊎◌, inl, inr, List, [], ◌∷◌, update_where, IsMember,
  first, later, if◌then◌else◌,
}
use go_identity_service.Kafka.Model.{Record}
use go_identity_service.Outbox.Model.{Event}
use go_identity_service.Outbox.Publisher.{record_of}
use go_identity_service.Outbox.Protocol.{
  State, Move, kept, locked, delivered, released, given_up, Moves, nothing, row, Steps, start, next,
}

-- What the event's record holds, wherever it stands.
abbrev pub message : Event → Record
message = record_of [] 0 0

module _ {m : ℕ} {topic : List Record} where
  pub Move-message : {e e' : Event} → Move m topic e e' → message e' ≡ message e
  unfolding record_of
  Move-message kept = refl
  Move-message (locked now h) = refl
  Move-message (delivered now h d) = refl
  Move-message (released reason h l) = refl
  Move-message (given_up reason h l) = refl

  pub Move-id : {e e' : Event} → Move m topic e e' → e'.id ≡ e.id
  Move-id kept = refl
  Move-id (locked now h) = refl
  Move-id (delivered now h d) = refl
  Move-id (released reason h l) = refl
  Move-id (given_up reason h l) = refl

  pub Moves-refl : (es : List Event) → Moves m topic es es
  Moves-refl [] = nothing
  Moves-refl (e ∷ es) = row kept (Moves-refl es)

  -- Each row goes on as a row.
  pub Moves-forward :
      {es es' : List Event} {e : Event}
      → Moves m topic es es'
      → IsMember e es
      → (e' : Event) × IsMember e' es' × Move m topic e e'
  Moves-forward nothing h = elim h [ ]
  Moves-forward (row {e' = x} k ks) (first p) = (x, first refl, rw p k)
  Moves-forward (row k ks) (later h) = let (e', h', k') = Moves-forward ks h in (e', later h', k')

  -- Each row was a row before.
  pub Moves-back :
      {es es' : List Event} {e' : Event}
      → Moves m topic es es'
      → IsMember e' es'
      → (e : Event) × IsMember e es × Move m topic e e'
  Moves-back nothing h = elim h [ ]
  Moves-back (row {e = x} k ks) (first p) = (x, first refl, rw p k)
  Moves-back (row k ks) (later h) = let (e, h', k') = Moves-back ks h in (e, later h', k')

  pub Moves-update_where :
      (q : Event → Bool) (f : Event → Event) (es : List Event)
      → ((e : Event) → IsMember e es → q e ≡ true → Move m topic e (f e))
      → Moves m topic es (update_where q f es)
  unfolding update_where
  Moves-update_where q f [] h = nothing
  Moves-update_where q f (e ∷ es) h =
      row (one (Bool-cases (q e))) (Moves-update_where q f es (λ a k. h a (later k)))
    where
      one : (q e ≡ true) ⊎ (q e ≡ false) → Move m topic e (if q e then f e else e)
      one (inl hit) = rw hit (h e (first refl) hit)
      one (inr miss) = rw miss kept

pub Steps-trans : {m : ℕ} {s t u : State} → Steps m s t → Steps m t u → Steps m s u
Steps-trans p start = p
Steps-trans p (next q k) = next (Steps-trans p q) k

-- ===== src/Outbox/Protocol/Identity.antt =====
-- The primary key of outbox_events, and the row that an event in the worker's hands came from.
use go_identity_service.Base.{
  ℕ, Text, ◌≡◌, refl, sym, ap, ◌∙◌, List, [], ◌∷◌, IsMember, first, later,
}
use go_identity_service.Kafka.Model.{Record}
use go_identity_service.Outbox.Model.{Event}
use go_identity_service.Outbox.Publisher.{record_of}
use go_identity_service.Outbox.Protocol.{
  State, Moves, nothing, row, wrote, moved, Steps, start, next,
}
use go_identity_service.Outbox.Protocol.Rows.{
  message, Move-id, Move-message, Moves-forward, Moves-back,
}

-- No two rows have one id.
abbrev pub HasDistinctIds : List Event → Type 0
HasDistinctIds [] = Unit
HasDistinctIds (e ∷ es) = ((a : Event) → IsMember a es → a.id ≡ e.id → ⊥) × HasDistinctIds es

pub same_row :
    (es : List Event) (a b : Event)
    → HasDistinctIds es
    → IsMember a es
    → IsMember b es
    → a.id ≡ b.id
    → a ≡ b
same_row [] a b d k j h = elim k [ ]
same_row (e ∷ es) a b d (first p) (first q) h = p ∙ sym q
same_row (e ∷ es) a b d (first p) (later k) h =
    absurd (d.0 b k (sym h ∙ ap (λ (y : Event). y.id) p))
same_row (e ∷ es) a b d (later k) (first q) h = absurd (d.0 a k (h ∙ ap (λ (y : Event). y.id) q))
same_row (e ∷ es) a b d (later j) (later k) h = same_row es a b d.1 j k h

-- The event is a copy of a row, as far as its record goes.
pub record Tracks (event : Event) (es : List Event) : Type 0 where
  pub original : Event
  pub present : IsMember original es
  pub same : message original ≡ message event
  pub only : (a : Event) → IsMember a es → a.id ≡ event.id → message a ≡ message event

pub record_of-message :
    (a b : Event) (name : Text) (partition offset : ℕ)
    → message a ≡ message b
    → record_of name partition offset a ≡ record_of name partition offset b
unfolding record_of
record_of-message a b name partition offset h =
    ap (λ (r : Record). record r { topic = name; partition = partition; offset = offset }) h

module _ {m : ℕ} where
  pub Moves-HasDistinctIds :
      {topic : List Record} {es es' : List Event}
      → Moves m topic es es'
      → HasDistinctIds es
      → HasDistinctIds es'
  Moves-HasDistinctIds nothing d = tt
  Moves-HasDistinctIds (row {e = e} k ks) d = (
    λ a h p. let (b, h', k') = Moves-back ks h in d.0 b h' (sym (Move-id k') ∙ p ∙ Move-id k),
    Moves-HasDistinctIds ks d.1,
  )

  pub Steps-HasDistinctIds : {s t : State} → Steps m s t → HasDistinctIds s.0 → HasDistinctIds t.0
  Steps-HasDistinctIds start d = d
  Steps-HasDistinctIds (next q (wrote e name partition offset h)) d = Steps-HasDistinctIds q d
  Steps-HasDistinctIds (next q (moved ks)) d = Moves-HasDistinctIds ks (Steps-HasDistinctIds q d)

  Moves-Tracks :
      {topic : List Record} {es es' : List Event} (event : Event)
      → Moves m topic es es'
      → Tracks event es
      → Tracks event es'
  Moves-Tracks event ks t =
      let (a, h, k) = Moves-forward ks t.present in
      record {
        original = a;
        present = h;
        same = Move-message k ∙ t.same;
        only = λ b j p.
            let (c, j', k') = Moves-back ks j in
            Move-message k' ∙ t.only c j' (sym (Move-id k') ∙ p);
      }

  pub Steps-Tracks :
      {s t : State} (event : Event) → Steps m s t → Tracks event s.0 → Tracks event t.0
  Steps-Tracks event start k = k
  Steps-Tracks event (next q (wrote e name partition offset h)) k = Steps-Tracks event q k
  Steps-Tracks event (next q (moved ks)) k = Moves-Tracks event ks (Steps-Tracks event q k)

  -- A row is still there behind any steps, under its id.
  pub Steps-forward :
      {s t : State} (e : Event)
      → Steps m s t
      → IsMember e s.0
      → (a : Event) × IsMember a t.0 × (a.id ≡ e.id)
  Steps-forward e start h = (e, h, refl)
  Steps-forward e (next q (wrote b name partition offset k)) h = Steps-forward e q h
  Steps-forward e (next q (moved ks)) h =
      let (a, h', p) = Steps-forward e q h in
      let (b, k, step) = Moves-forward ks h' in (b, k, Move-id step ∙ p)

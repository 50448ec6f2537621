-- ===== src/Outbox/Protocol/Invariants.antt =====
-- What stays true of the outbox and the topic, whatever the steps.
use go_identity_service.Base.{
  ℕ, ◌<◌, Text, ◌≡◌, refl, sym, ◌∙◌, inl, inr, List, [], ◌∷◌, ◌++◌, IsMember, IsMember-append,
  IsMember-append_left, IsMember-cons, arith,
}
use go_identity_service.Kafka.Model.{Record}
use go_identity_service.Outbox.Model.{Event, new, processed, failed}
use go_identity_service.Outbox.Publisher.{record_of}
use go_identity_service.Outbox.Protocol.{
  State, Move, kept, locked, delivered, released, given_up, Step, wrote, moved, Steps, start, next,
  IsDelivered,
}
use go_identity_service.Outbox.Protocol.Rows.{Moves-forward, Moves-back}

-- No event is lost: a row that is PROCESSED has its record in the topic.
pub record IsLossless (s : State) : Type 0 where
  pub at : (e : Event) → IsMember e s.0 → e.status ≡ processed → IsDelivered e s.1

-- No event is made up: a record of the topic is that of a row.
pub record IsGenuine (s : State) : Type 0 where
  pub at :
      (r : Record)
      → IsMember r s.1
      → (e : Event) × (name : Text) × (partition : ℕ) × (offset : ℕ) × IsMember e s.0
        × (r ≡ record_of name partition offset e)

-- A row that waits has tries left.
pub record HasTries (max_attempts : ℕ) (s : State) : Type 0 where
  pub at : (e : Event) → IsMember e s.0 → e.status ≡ new → e.attempts < max_attempts

pub data IsFinal (e : Event) : Type 0 where
  was_processed : e.status ≡ processed → IsFinal e
  was_failed : e.status ≡ failed → IsFinal e

module _ {m : ℕ} {topic : List Record} where
  Move-IsDelivered :
      {e e' : Event}
      → Move m topic e e'
      → (e.status ≡ processed → IsDelivered e topic)
      → e'.status ≡ processed
      → IsDelivered e' topic
  unfolding record_of
  Move-IsDelivered kept old h = old h
  Move-IsDelivered (locked now w) old h = cc
  Move-IsDelivered (delivered now p d) old h = record {
    name = d.name;
    partition = d.partition;
    offset = d.offset;
    held = d.held;
  }
  Move-IsDelivered (released reason p l) old h = cc
  Move-IsDelivered (given_up reason p l) old h = cc

  Move-record_of :
      {e e' : Event} (name : Text) (partition offset : ℕ)
      → Move m topic e e'
      → record_of name partition offset e' ≡ record_of name partition offset e
  unfolding record_of
  Move-record_of name partition offset kept = refl
  Move-record_of name partition offset (locked now h) = refl
  Move-record_of name partition offset (delivered now h d) = refl
  Move-record_of name partition offset (released reason h l) = refl
  Move-record_of name partition offset (given_up reason h l) = refl

  Move-HasTries :
      {e e' : Event}
      → Move m topic e e'
      → (e.status ≡ new → e.attempts < m)
      → e'.status ≡ new
      → e'.attempts < m
  Move-HasTries kept old h = old h
  Move-HasTries (locked now w) old h = cc
  Move-HasTries (delivered now p d) old h = cc
  Move-HasTries (released reason p l) old h = l
  Move-HasTries (given_up reason p l) old h = cc

  Move-IsFinal : {e e' : Event} → Move m topic e e' → IsFinal e → e' ≡ e
  Move-IsFinal kept f = refl
  Move-IsFinal (locked now (inl w)) (was_processed h) = ground (arith, w, h)
  Move-IsFinal (locked now (inr w)) (was_processed h) = ground (arith, w, h)
  Move-IsFinal (locked now (inl w)) (was_failed h) = ground (arith, w, h)
  Move-IsFinal (locked now (inr w)) (was_failed h) = ground (arith, w, h)
  Move-IsFinal (delivered now p d) (was_processed h) = ground (arith, p, h)
  Move-IsFinal (delivered now p d) (was_failed h) = ground (arith, p, h)
  Move-IsFinal (released reason p l) (was_processed h) = ground (arith, p, h)
  Move-IsFinal (released reason p l) (was_failed h) = ground (arith, p, h)
  Move-IsFinal (given_up reason p l) (was_processed h) = ground (arith, p, h)
  Move-IsFinal (given_up reason p l) (was_failed h) = ground (arith, p, h)

IsDelivered-append :
    (e : Event) (topic : List Record) (r : Record)
    → IsDelivered e topic
    → IsDelivered e (topic ++ r ∷ [])
IsDelivered-append e topic r d = record {
  name = d.name;
  partition = d.partition;
  offset = d.offset;
  held = IsMember-append_left topic (r ∷ []) _ d.held;
}

module _ {m : ℕ} where
  Step-IsLossless : {s t : State} → Step m s t → IsLossless s → IsLossless t
  Step-IsLossless (wrote {topic = topic} e name partition offset h) i = record {
    at = λ a k p. IsDelivered-append a topic _ (i.at a k p);
  }
  Step-IsLossless (moved ks) i = record {
    at = λ e' h p. let (e, h', k) = Moves-back ks h in Move-IsDelivered k (i.at e h') p;
  }

  -- A PROCESSED row has its record in the topic, after any steps, if that held before them.
  pub Steps-IsLossless : {s t : State} → Steps m s t → IsLossless s → IsLossless t
  Steps-IsLossless start i = i
  Steps-IsLossless (next q k) i = Step-IsLossless k (Steps-IsLossless q i)

  Step-IsGenuine : {s t : State} → Step m s t → IsGenuine s → IsGenuine t
  Step-IsGenuine (wrote {es = es} {topic = topic} e name partition offset h) i = record {
    at = λ r k. elim (IsMember-append topic _ r k) [
      | inl old ↦ i.at r old
      | inr fresh ↦ (
        e,
        name,
        partition,
        offset,
        h,
        elim (IsMember-cons fresh) [ inl p ↦ p | inr none_left ↦ elim none_left [ ] ],
      )
    ];
  }
  Step-IsGenuine (moved ks) i = record {
    at = λ r h.
        let (e, name, partition, offset, h', p) = i.at r h in
        let (e', k', k) = Moves-forward ks h' in
        (e', name, partition, offset, k', p ∙ sym (Move-record_of name partition offset k));
  }

  -- A record of the topic is that of a row, after any steps, if that held before them.
  pub Steps-IsGenuine : {s t : State} → Steps m s t → IsGenuine s → IsGenuine t
  Steps-IsGenuine start i = i
  Steps-IsGenuine (next q k) i = Step-IsGenuine k (Steps-IsGenuine q i)

  Step-HasTries : {s t : State} → Step m s t → HasTries m s → HasTries m t
  Step-HasTries (wrote e name partition offset h) i = record { at = i.at }
  Step-HasTries (moved ks) i = record {
    at = λ e' h p. let (e, h', k) = Moves-back ks h in Move-HasTries k (i.at e h') p;
  }

  -- A row that waits has tries left, after any steps, if that held before them.
  pub Steps-HasTries : {s t : State} → Steps m s t → HasTries m s → HasTries m t
  Steps-HasTries start i = i
  Steps-HasTries (next q k) i = Step-HasTries k (Steps-HasTries q i)

  Step-final : {s t : State} (e : Event) → Step m s t → IsFinal e → IsMember e s.0 → IsMember e t.0
  Step-final e (wrote a name partition offset h) f k = k
  Step-final e (moved ks) f k =
      let (e', k', mv) = Moves-forward ks k in rw (sym (Move-IsFinal mv f)) k'

  -- A row that is PROCESSED or FAILED stays as it is, after any steps.
  pub Steps-final :
      {s t : State} (e : Event) → Steps m s t → IsFinal e → IsMember e s.0 → IsMember e t.0
  Steps-final e start f h = h
  Steps-final e (next q k) f h = Step-final e k f (Steps-final e q f h)

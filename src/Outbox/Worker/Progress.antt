-- ===== src/Outbox/Worker/Progress.antt =====
-- What a round of the worker gets done when no call fails.
use go_identity_service.Base.{
  ℕ, ℤ, ◌≡◌, refl, sym, ap, subst, ◌∙◌, Bool-cases, inl, inr, List, [], ◌∷◌, IsMember,
  IsMember-update_where, first, later, int_eq_iff, if◌then◌else◌, update_where, arith,
}
use go_identity_service.Apperror.{wrapped, Result}
use go_identity_service.External.{External}
use go_identity_service.World.{World, ◌>>=◌, pure, fail, on_err, map_err, attempt, sql_now}
use go_identity_service.World.Rules.{call_answered}
use go_identity_service.Outbox.Model.{Event, processing, processed}
use go_identity_service.Outbox.Repository.{
  in_processing, set_processed, update_event, mark_processed,
}
use go_identity_service.Outbox.Publisher.{produce, publish}
use go_identity_service.Outbox.Worker.{WorkerConfig, process_event, process_all}

-- The rows of an event that the worker holds.
pub data IsHeld (e : Event) : Type 0 where
  held : e.status ≡ processing → IsHeld e
  done : e.status ≡ processed → IsHeld e

module _ (x : External) (cfg : WorkerConfig) where
  -- No failure is to come, and the rows are those after MarkProcessed.
  record Done (event : Event) (w w' : World) : Type 0 where
    at : ℕ
    quiet : w'.answers ≡ []
    rows :
        w'.tables.outbox_events
        ≡ update_where (in_processing event.id) (set_processed at) w.tables.outbox_events

  mark_processed-Done :
      (event : Event) (w : World)
      → w.answers ≡ []
      → Done event w (map_err (wrapped "mark processed") (mark_processed event.id) w).1
  unfolding mark_processed update_event on_err ◌>>=◌ fail pure
  mark_processed-Done event w h = record {
    at = sql_now w;
    quiet = ground (arith, h, call_answered (update_event event.id set_processed) w h);
    rows = ground (arith, call_answered (update_event event.id set_processed) w h);
  }

  process_event-Done :
      (event : Event) (w : World) → w.answers ≡ [] → Done event w (process_event x cfg event w).1
  unfolding process_event publish produce on_err ◌>>=◌ fail pure attempt
  process_event-Done event w h =
      let d = mark_processed-Done event (produce x cfg.topic event w).1 h in
      subst (λ (o : Result (Unit {0}) × World). Done event w o.1) (sym published)
        (record { at = d.at; quiet = d.quiet; rows = d.rows })
    where
      published : ◌≡◌ {A = Result (Unit {0}) × World} (process_event x cfg event w) (
          map_err
            (wrapped "mark processed")
            (mark_processed event.id)
            (produce x cfg.topic event w).1)
      published = rw (call_answered (produce x cfg.topic event) w h) refl

-- Each row with the id satisfies the predicate.
abbrev pub RowsOf : ℤ → (Event → Type 0) → World → Type 0
RowsOf id P w = (a : Event) → IsMember a w.tables.outbox_events → a.id ≡ id → P a

abbrev pub IsProcessed : Event → Type 0
IsProcessed e = e.status ≡ processed

-- MarkProcessed of an id, on one row.
settle : (id : ℤ) (at : ℕ) → Event → Event
settle id at e = if in_processing id e then set_processed at e else e

settle-id : (id : ℤ) (at : ℕ) (e : Event) → (settle id at e).id ≡ e.id
unfolding settle
settle-id id at e = elim (Bool-cases (in_processing id e)) [
  | inl hit ↦ rw hit refl
  | inr miss ↦ rw miss refl
]

settle-IsProcessed : (id : ℤ) (at : ℕ) (e : Event) → IsProcessed e → IsProcessed (settle id at e)
unfolding settle
settle-IsProcessed id at e h = elim (Bool-cases (in_processing id e)) [
  | inl hit ↦ rw hit refl
  | inr miss ↦ rw miss h
]

settle-IsHeld : (id : ℤ) (at : ℕ) (e : Event) → IsHeld e → IsHeld (settle id at e)
unfolding settle
settle-IsHeld id at e h = elim (Bool-cases (in_processing id e)) [
  | inl hit ↦ rw hit (done refl)
  | inr miss ↦ rw miss h
]

settle-own : (id : ℤ) (at : ℕ) (e : Event) → e.id ≡ id → IsHeld e → IsProcessed (settle id at e)
unfolding settle in_processing
settle-own id at e same (done h) = settle-IsProcessed id at e h
settle-own id at e same (held h) = rw ((int_eq_iff e.id id).1 same, h) refl

module _ (x : External) (cfg : WorkerConfig) where
  -- The rows behind a round trip of one event.
  Done-RowsOf :
      (P Q : Event → Type 0) (event : Event) (w w' : World) (id : ℤ)
      → Done x cfg event w w'
      → ((at : ℕ) (e : Event) → e.id ≡ id → P e → Q (settle event.id at e))
      → RowsOf id P w
      → RowsOf id Q w'
  unfolding settle
  Done-RowsOf P Q event w w' id d step old a k same =
      let (e, k', eq) =
        IsMember-update_where (in_processing event.id) (set_processed d.at) _ a
          (subst (λ (es : List Event). IsMember a es) d.rows k) in
      let same' : e.id ≡ id =
        sym (settle-id event.id d.at e) ∙ sym (ap (λ (y : Event). y.id) eq) ∙ same in
      subst Q (sym eq) (step d.at e same' (old e k' same'))

  process_all-IsProcessed :
      (events : List Event) (w : World) (id : ℤ)
      → w.answers ≡ []
      → RowsOf id IsProcessed w
      → RowsOf id IsProcessed (process_all x cfg events w).1
  unfolding process_all ◌>>=◌ attempt pure
  process_all-IsProcessed [] w id q h = h
  process_all-IsProcessed (e ∷ es) w id q h =
      let d = process_event-Done x cfg e w q in
      process_all-IsProcessed es (process_event x cfg e w).1 id d.quiet (
        Done-RowsOf IsProcessed IsProcessed e w _ id d (λ at a same. settle-IsProcessed e.id at a)
          h)

  pub process_all-settles :
      (events : List Event) (w : World)
      → w.answers ≡ []
      → ((e : Event) → IsMember e events → RowsOf e.id IsHeld w)
      → (e : Event) → IsMember e events
      → RowsOf e.id IsProcessed (process_all x cfg events w).1
  unfolding process_all ◌>>=◌ attempt pure
  process_all-settles [] w q h e k = elim k [ ]
  process_all-settles (b ∷ es) w q h e (first p) =
      let d = process_event-Done x cfg b w q in
      process_all-IsProcessed es (process_event x cfg b w).1 e.id d.quiet (
        Done-RowsOf IsHeld IsProcessed b w _ e.id d
          (λ at a same. settle-own b.id at a (same ∙ ap (λ (y : Event). y.id) p)) (h e (first p)))
  process_all-settles (b ∷ es) w q h e (later k) =
      let d = process_event-Done x cfg b w q in
      process_all-settles es (process_event x cfg b w).1 d.quiet
        (λ a j.
          Done-RowsOf IsHeld IsHeld b w _ a.id d (λ at c same. settle-IsHeld b.id at c)
            (h a (later j)))
        e k

-- ===== src/Outbox/Worker/Calls.antt =====
-- Each call that the worker makes for an event follows the protocol.
use go_identity_service.Base.{
  ℕ, ℤ, leb, Text, ◌≡◌, refl, sym, subst, Bool, true, false, Bool-cases, ◌&&◌, int_eq, ◌⊎◌, inl,
  inr, Option, none, some, List, [], ◌∷◌, ◌++◌, update_where, filter, length, IsMember-append_last,
  int_eq_iff, arith, if◌then◌else◌,
}
use go_identity_service.Apperror.{Error, Result, ok}
use go_identity_service.External.{External}
use go_identity_service.World.{World, pure, fail}
use go_identity_service.World.Rules.{map_err-ok, call-ok}
use go_identity_service.World.Keeps.{Keeps, Keeps-pure, Keeps-fail, Keeps-if}
use go_identity_service.Kafka.Model.{Record}
use go_identity_service.Outbox.Model.{Event, Status, new, processing, processed, failed}
use go_identity_service.Outbox.Repository.{
  in_processing, set_processed, set_failed, update_event, mark_processed, mark_failed,
}
use go_identity_service.Outbox.Publisher.{message_key, in_partition, produce, publish}
use go_identity_service.Outbox.Protocol.{
  State, Move, delivered, released, given_up, Moves, wrote, moved, Steps, start, next, IsDelivered,
}
use go_identity_service.Outbox.Protocol.Rows.{Moves-update_where}
use go_identity_service.Outbox.Protocol.Identity.{Tracks, record_of-message}
use go_identity_service.Outbox.Worker.{WorkerConfig}
use go_identity_service.Outbox.Worker.Goes.{
  view, Goes, Goes-from, Goes-Keeps, Goes-map_err, Goes-call, Goes-then,
}

-- A row that MarkProcessed and MarkFailed update is PROCESSING and has the id.
in_processing-row :
    (id : ℤ) (e : Event) → in_processing id e ≡ true → (e.id ≡ id) × (e.status ≡ processing)
unfolding in_processing
in_processing-row id e h = go (int_eq e.id id) e.status refl refl h
  where
    go :
        (b : Bool) (s : Status)
        → int_eq e.id id ≡ b
        → e.status ≡ s
        → (b && elim s [ processing ↦ true | _ ↦ false ]) ≡ true
        → (e.id ≡ id) × (e.status ≡ processing)
    go true processing p q k = ((int_eq_iff e.id id).0 p, q)
    go true new p q k = cc
    go true processed p q k = cc
    go true failed p q k = cc
    go false s p q k = cc

module _ (m : ℕ) (topic : List Record) where
  set_failed-Moves :
      (id : ℤ) (reason : Text) (es : List Event)
      → Moves m topic es (update_where (in_processing id) (set_failed reason m) es)
  set_failed-Moves id reason es =
      Moves-update_where _ _ es
        λ e h q. one e (in_processing-row id e q).1 (Bool-cases (leb m e.attempts))
    where
      one :
          (e : Event)
          → e.status ≡ processing
          → (leb m e.attempts ≡ true) ⊎ (leb m e.attempts ≡ false)
          → Move m topic e (set_failed reason m e)
      one e p (inl out) = rw out (given_up reason p (ground arith))
      one e p (inr left) = rw left (released reason p (ground arith))

  set_processed-Moves :
      (event : Event) (at : ℕ) (es : List Event)
      → Tracks event es
      → IsDelivered event topic
      → Moves m topic es (update_where (in_processing event.id) (set_processed at) es)
  set_processed-Moves event at es t d = Moves-update_where _ _ es λ e h q.
      let (same_id, p) = in_processing-row event.id e q in
      delivered at p (record {
        name = d.name;
        partition = d.partition;
        offset = d.offset;
        held =
            rw (record_of-message e event d.name d.partition d.offset (t.only e h same_id)) d.held;
      })

module _ (x : External) (cfg : WorkerConfig) where
  abbrev m : ℕ
  m = cfg.max_attempts

  after_update-view :
      (e : Error) (affected : Bool) → Keeps view (if affected then pure tt else fail e)
  after_update-view e affected = Keeps-if affected _ _ (Keeps-pure tt) (Keeps-fail e)

  pub mark_failed-Goes :
      (id : ℤ) (reason : Option Text) (s : State) → Goes m s (mark_failed id reason m)
  unfolding mark_failed update_event
  mark_failed-Goes id none s =
      Goes-then _ _ (Goes-map_err _ _ (Goes-call _ (Goes-Keeps _ (Keeps-fail _))))
        (after_update-view _)
  mark_failed-Goes id (some reason) s =
      Goes-then _ _ (Goes-map_err _ _ (Goes-call _ (Goes-from _ updated))) (after_update-view _)
    where
      updated :
          (w : World)
          → view w ≡ s
          → Steps m (view w) (view (update_event id (λ at. set_failed reason m) w).1)
      updated w p = next start (moved (set_failed-Moves m w.topic id reason w.tables.outbox_events))

  pub mark_processed-Goes :
      (event : Event) (s : State)
      → Tracks event s.0
      → IsDelivered event s.1
      → Goes m s (mark_processed event.id)
  unfolding mark_processed update_event
  mark_processed-Goes event s t d =
      Goes-then _ _ (Goes-map_err _ _ (Goes-call _ (Goes-from _ updated))) (after_update-view _)
    where
      updated :
          (w : World)
          → view w ≡ s
          → Steps m (view w) (view (update_event event.id set_processed w).1)
      updated w p = next start (
          moved (
            set_processed-Moves m w.topic event _ w.tables.outbox_events
              (subst (λ (t : State). Tracks event t.0) (sym p) t)
              (subst (λ (t : State). IsDelivered event t.1) (sym p) d)))

  produce-Goes :
      (event : Event) (s : State) → Tracks event s.0 → Goes m s (produce x cfg.topic event)
  unfolding produce
  produce-Goes event s t = Goes-from _ λ w p.
      let k = subst (λ (t : State). Tracks event t.0) (sym p) t in
      subst (λ (r : Record). Steps m (view w) (w.tables.outbox_events, w.topic ++ r ∷ []))
        (record_of-message k.original event cfg.topic _ _ k.same)
        (next start (wrote k.original cfg.topic _ _ k.present))

  pub publish-Goes :
      (event : Event) (s : State) → Tracks event s.0 → Goes m s (publish x cfg.topic event)
  unfolding publish
  publish-Goes event s t = Goes-map_err _ _ (Goes-call _ (produce-Goes event s t))

  produce-IsDelivered :
      (event : Event) (w : World) → IsDelivered event (produce x cfg.topic event w).1.topic
  unfolding produce
  produce-IsDelivered event w = record {
    name = cfg.topic;
    partition = x.partition_of (message_key event);
    offset = length (filter (in_partition (x.partition_of (message_key event))) w.topic);
    held = IsMember-append_last w.topic _;
  }

  -- When the publisher reports success, the record is in the topic.
  pub publish-IsDelivered :
      (event : Event) (w : World) {v : World}
      → publish x cfg.topic event w ≡ (ok tt, v)
      → IsDelivered event v.topic
  unfolding publish
  publish-IsDelivered event w h =
      let (rest, p) = call-ok (produce x cfg.topic event) w (map_err-ok _ _ w h) in
      subst (λ (o : Result (Unit {0}) × World). IsDelivered event o.1.topic) p
        (produce-IsDelivered event (record w { answers = rest }))

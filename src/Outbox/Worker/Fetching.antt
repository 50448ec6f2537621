-- ===== src/Outbox/Worker/Fetching.antt =====
-- FetchBatch of internal/outbox/postgres_repository.go follows the protocol, and hands out copies of rows.
use go_identity_service.Base.{
  ℕ, ℤ, pos, negsuc, leb, ◌≡◌, refl, sym, ap, subst, ◌∙◌, Bool, true, false, ◌⊎◌, inl, inr, List,
  [], ◌∷◌, update_where, IsMember, IsMember-any, IsMember-take, IsMember-sort_by, IsMember-filter,
  IsMember-map, int_eq_iff, if◌then◌else◌,
}
use go_identity_service.Apperror.{wrapped, Result, ok, err}
use go_identity_service.World.{World, ◌>>=◌, pure, map_err, call, sql_now, time_now, read_delays}
use go_identity_service.World.Rules.{bind-ok, map_err-ok, call-ok, pure-ok}
use go_identity_service.World.Keeps.{Keeps, Keeps-pure}
use go_identity_service.Kafka.Model.{Record}
use go_identity_service.Outbox.Model.{Event, Status, new, processing, processed, failed}
use go_identity_service.Outbox.Repository.{
  is_due, has_event_id, lock, select_due, is_among, lock_due, fetch_batch, lock_is_over,
}
use go_identity_service.Outbox.Publisher.{record_of}
use go_identity_service.Outbox.Protocol.{State, locked, Moves, moved, Steps, start, next}
use go_identity_service.Outbox.Protocol.Rows.{
  message, Moves-forward, Moves-back, Move-message, Move-id, Moves-update_where,
}
use go_identity_service.Outbox.Protocol.Identity.{HasDistinctIds, same_row, Tracks}
use go_identity_service.Outbox.Worker.Goes.{
  view, Goes, Goes-from, Goes-Keeps, Goes-map_err, Goes-call, Goes-after,
}

is_due-status :
    (now lt : ℕ) (e : Event) → is_due now lt e ≡ true → (e.status ≡ new) ⊎ (e.status ≡ processing)
unfolding is_due
is_due-status now lt e h = go e.status refl h
  where
    go :
        (s : Status)
        → e.status ≡ s
        → elim s [ new ↦ true | processing ↦ lock_is_over now lt e | _ ↦ false ] ≡ true
        → (e.status ≡ new) ⊎ (e.status ≡ processing)
    go new p k = inl p
    go processing p k = inr p
    go processed p k = cc
    go failed p k = cc

-- A row that is picked is one of the table, and due.
pub select_due-IsMember :
    (limit now lt : ℕ) (es : List Event) (e : Event)
    → IsMember e (select_due limit now lt es)
    → IsMember e es × (is_due now lt e ≡ true)
unfolding select_due
select_due-IsMember limit now lt es e h =
    IsMember-filter (is_due now lt) es e
      (IsMember-sort_by (λ e. e.created_at) _ e (IsMember-take limit _ e h))

module _ (m : ℕ) (topic : List Record) where
  lock-Moves :
      (limit now lt at : ℕ) (es : List Event)
      → HasDistinctIds es
      → Moves m topic es (update_where (is_among (select_due limit now lt es)) (lock at) es)
  unfolding is_among has_event_id
  lock-Moves limit now lt at es d = Moves-update_where _ (lock at) es λ e h q.
      let (p, k, same) = IsMember-any _ _ q in
      let (k', due) = select_due-IsMember limit now lt es p k in
      locked at (
        is_due-status now lt e
          (ap (is_due now lt) (same_row es e p d h k' (sym ((int_eq_iff p.id e.id).0 same))) ∙ due))

message-lock : (at : ℕ) (e : Event) → message e ≡ message (lock at e)
unfolding record_of
message-lock at e = refl

-- What the query of FetchBatch did when it returned: a step, and copies of rows.
lock_due-Tracks :
    (m limit now lt : ℕ) (w : World) {events : List Event} {v : World}
    → HasDistinctIds w.tables.outbox_events
    → lock_due limit now lt w ≡ (ok events, v)
    → Steps m (view w) (view v)
      × ((e : Event) → IsMember e events → Tracks e v.tables.outbox_events)
unfolding lock_due
lock_due-Tracks m limit now lt w {events} {v} d h =
    subst
      (λ (o : Result (List Event) × World).
        Steps m (view w) (view o.1)
        × ((e : Event)
            → IsMember e (elim o.0 [ ok l ↦ l | err x ↦ [] ])
            → Tracks e o.1.tables.outbox_events))
      h
      (
        next start (moved ks),
        λ e k.
            let (p, k', same) = IsMember-map (lock (sql_now w)) _ e k in
            let (k0, due) = select_due-IsMember limit now lt es p k' in rw same (tracks p k0),
      )
  where
    es : List Event
    es = w.tables.outbox_events

    ks :
        Moves m w.topic es
          (update_where (is_among (select_due limit now lt es)) (lock (sql_now w)) es)
    ks = lock-Moves m w.topic limit now lt (sql_now w) es d

    tracks :
        (p : Event)
        → IsMember p es
        → Tracks
            (lock (sql_now w) p)
            (update_where (is_among (select_due limit now lt es)) (lock (sql_now w)) es)
    tracks p k0 =
        let (a, h', k) = Moves-forward ks k0 in
        record {
          original = a;
          present = h';
          same = Move-message k ∙ message-lock (sql_now w) p;
          only = λ b j q.
              let (c, j', k') = Moves-back ks j in
              Move-message k'
              ∙ ap message (same_row es c p d j' k0 (sym (Move-id k') ∙ q))
              ∙ message-lock (sql_now w) p;
        }

time_now-view : Keeps view time_now
unfolding time_now
time_now-view = record { at = λ w. go w w.delays }
  where
    go : (w : World) (l : List ℕ) → view (read_delays l w).1 ≡ view w
    go w [] = refl
    go w (t ∷ rest) = refl

nothing_fetched :
    (w : World) {events : List Event} {v : World} {e : Event}
    → pure [] w ≡ (ok events, v)
    → IsMember e events
    → ⊥
nothing_fetched w h k = elim (rw (sym (pure-ok [] w h).0) at k) [ ]

module _ (m : ℕ) where
  lock_due-Goes :
      (limit now lt : ℕ) (s : State) → HasDistinctIds s.0 → Goes m s (lock_due limit now lt)
  unfolding lock_due
  lock_due-Goes limit now lt s d = Goes-from _ λ w p. next start (
      moved (
        lock-Moves m w.topic limit now lt (sql_now w) w.tables.outbox_events
          (subst (λ (t : State). HasDistinctIds t.0) (sym p) d)))

  pub fetch_batch-Goes :
      (limit : ℤ) (lt : ℕ) (s : State) → HasDistinctIds s.0 → Goes m s (fetch_batch limit lt)
  unfolding fetch_batch ◌>>=◌ pure
  fetch_batch-Goes (negsuc n) lt s d = Goes-Keeps _ (Keeps-pure [])
  fetch_batch-Goes (pos n) lt s d = go (leb n 0)
    where
      go :
          (b : Bool)
          → Goes m s (
              if b then pure [] else do
                now ← time_now
                map_err (wrapped "fetch outbox events") (call (lock_due n now lt)))
      go true = Goes-Keeps _ (Keeps-pure [])
      go false =
          Goes-after _ _ time_now-view
            (λ now. Goes-map_err _ _ (Goes-call _ (lock_due-Goes n now lt s d)))

  pub fetch_batch-Tracks :
      (limit : ℤ) (lt : ℕ) (w : World) {events : List Event} {v : World}
      → HasDistinctIds w.tables.outbox_events
      → fetch_batch limit lt w ≡ (ok events, v)
      → (e : Event) → IsMember e events
      → Tracks e v.tables.outbox_events
  unfolding fetch_batch
  fetch_batch-Tracks (negsuc n) lt w d h e k = absurd (nothing_fetched w h k)
  fetch_batch-Tracks (pos n) lt w {events} {v} d h e k = go (leb n 0) h
    where
      go :
          (b : Bool)
          → (if b then pure [] else do
            now ← time_now
            map_err (wrapped "fetch outbox events") (call (lock_due n now lt)))
              w
            ≡ (ok events, v)
          → Tracks e v.tables.outbox_events
      go true q = absurd (nothing_fetched w q k)
      go false q = bind-ok _ _ w q λ now v1 p1 q1.
          let (rest, r) = call-ok (lock_due n now lt) v1 (map_err-ok _ _ v1 q1) in
          (lock_due-Tracks m n now lt (record v1 { answers = rest })
              (subst (λ (t : State). HasDistinctIds t.0)
                (sym (ap (λ (o : Result ℕ × World). view o.1) (sym p1) ∙ time_now-view.at w)) d)
              r).1
            e k

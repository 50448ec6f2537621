-- ===== src/Outbox/Worker/Delivery.antt =====
-- A round of the worker delivers what is due, when no call fails.
use go_identity_service.Base.{
  ℕ, ◌+◌, ◌<◌, leb, Bool-cases, inl, inr, pos, ◌≡◌, refl, sym, ap, subst, ◌∙◌, true, false, List,
  [], ◌∷◌, map, IsMember, IsMember-map, map-IsMember, IsMember-update_where, any-IsMember,
  int_eq_iff, arith,
}
use go_identity_service.Apperror.{wrapped}
use go_identity_service.External.{External}
use go_identity_service.World.{
  World, Tables, ◌>>=◌, on_err, map_err, call, time_now, read_delays, sql_now, continue,
}
use go_identity_service.World.Rules.{call_answered}
use go_identity_service.Outbox.Model.{Event}
use go_identity_service.Outbox.Repository.{
  lock, select_due, is_among, has_event_id, lock_due, fetch_batch,
}
use go_identity_service.Outbox.Protocol.{IsDelivered}
use go_identity_service.Outbox.Protocol.Identity.{Steps-forward}
use go_identity_service.Outbox.Worker.{WorkerConfig, process_all, process_once}
use go_identity_service.Outbox.Worker.Fetching.{select_due-IsMember}
use go_identity_service.Outbox.Worker.Refinement.{process_once-Steps}
use go_identity_service.Outbox.Worker.Soundness.{IsSound, process_once-IsSound}
use go_identity_service.Outbox.Worker.Progress.{
  RowsOf, IsProcessed, IsHeld, held, process_all-settles,
}

-- FetchBatch when no failure is to come: the clock is read, and the query is carried out.
fetch_quiet :
    (n lt : ℕ) (w : World)
    → 0 < n
    → w.answers ≡ []
    → fetch_batch (pos n) lt w ≡ lock_due n (time_now w).1.clock lt (time_now w).1
unfolding fetch_batch ◌>>=◌ on_err lock_due time_now
fetch_quiet n lt w some_left q = rw positive (go w.delays)
  where
    positive : leb n 0 ≡ false
    positive = ground arith

    go :
        (l : List ℕ)
        → continue
            (read_delays l w).0
            (λ now. map_err (wrapped "fetch outbox events") (call (lock_due n now lt)))
            (read_delays l w).1
          ≡ lock_due n (read_delays l w).1.clock lt (read_delays l w).1
    go [] = rw (call_answered (lock_due n w.clock lt) w q) refl
    go (d ∷ rest) =
        rw
          (call_answered (lock_due n (w.clock + d) lt)
            (record w { clock = w.clock + d; delays = rest }) q)
          refl

module _ (limit now lt : ℕ) (w : World) where
  abbrev es : List Event
  es = w.tables.outbox_events

  -- The rows that the query locked are those of the events which it returned.
  locked_rows :
      (e : Event)
      → IsMember e (map (lock (sql_now w)) (select_due limit now lt es))
      → RowsOf e.id IsHeld (lock_due limit now lt w).1
  unfolding lock_due is_among has_event_id
  locked_rows e k a j same =
      let (p, k', ep) = IsMember-map (lock (sql_now w)) _ e k in
      let (c, j', ec) = IsMember-update_where _ (lock (sql_now w)) es a j in
      elim (Bool-cases (is_among (select_due limit now lt es) c)) [
        | inl hit ↦ held (ap (λ (y : Event). y.status) (rw hit at ec))
        | inr miss ↦ absurd (
            clash (
              sym (
                any-IsMember (has_event_id c.id) _ p k' (
                  (int_eq_iff p.id c.id).1 (
                    sym (
                      ap (λ (y : Event). y.id) (sym (rw miss at ec))
                      ∙ same
                      ∙ ap (λ (y : Event). y.id) ep))))
              ∙ miss))
      ]
    where
      clash : true ≡ false → ⊥
      clash h = cc

time_now-tables :
    (w : World) → ((time_now w).1.tables ≡ w.tables) × ((time_now w).1.answers ≡ w.answers)
unfolding time_now
time_now-tables w = go w.delays
  where
    go :
        (l : List ℕ)
        → ((read_delays l w).1.tables ≡ w.tables) × ((read_delays l w).1.answers ≡ w.answers)
    go [] = (refl, refl)
    go (d ∷ rest) = (refl, refl)

module _ (x : External) (cfg : WorkerConfig) where
  process_once_quiet :
      (n : ℕ) (w : World)
      → cfg.batch_size ≡ pos n
      → 0 < n
      → w.answers ≡ []
      → (process_once x cfg w).1
        ≡ (process_all x cfg
            (map (lock (sql_now (time_now w).1)) (
              select_due n
                (time_now w).1.clock
                cfg.lock_timeout
                (time_now w).1.tables.outbox_events))
            (lock_due n (time_now w).1.clock cfg.lock_timeout (time_now w).1).1).1
  unfolding process_once on_err ◌>>=◌ lock_due
  process_once_quiet n w size some_left q =
      rw (size, fetch_quiet n cfg.lock_timeout w some_left q) refl

  process_once_settles :
      (n : ℕ) (w : World)
      → cfg.batch_size ≡ pos n
      → 0 < n
      → w.answers ≡ []
      → (e : Event)
      → IsMember e (select_due n (time_now w).1.clock cfg.lock_timeout w.tables.outbox_events)
      → RowsOf e.id IsProcessed (process_once x cfg w).1
  unfolding lock_due
  process_once_settles n w size some_left q e k =
      subst (RowsOf e.id IsProcessed) (sym (process_once_quiet n w size some_left q)) (
        process_all-settles x cfg _ (lock_due n v.clock cfg.lock_timeout v).1
          ((time_now-tables w).1 ∙ q) (locked_rows n v.clock cfg.lock_timeout v)
          (lock (sql_now v) e)
          (map-IsMember (lock (sql_now v)) _ e (
            subst (λ (es : List Event). IsMember e (select_due n v.clock cfg.lock_timeout es))
              (ap (λ (t : Tables). t.outbox_events) (sym (time_now-tables w).0)) k)))
    where
      v : World
      v = (time_now w).1

  -- When no call fails and the batch size is positive, a round of the worker leaves each event that was
  -- due, as many as the batch holds, PROCESSED and with its record in the topic, if the outbox was sound.
  pub process_once_delivers :
      (n : ℕ) (w : World)
      → cfg.batch_size ≡ pos n
      → 0 < n
      → w.answers ≡ []
      → IsSound cfg w
      → (e : Event)
      → IsMember e (select_due n (time_now w).1.clock cfg.lock_timeout w.tables.outbox_events)
      → (a : Event) × IsMember a (process_once x cfg w).1.tables.outbox_events
        × (a.id ≡ e.id)
        × IsProcessed a
        × IsDelivered a (process_once x cfg w).1.topic
  process_once_delivers n w size some_left q s e k =
      let (a, h, p) =
        Steps-forward e (process_once-Steps x cfg w s.distinct)
          (select_due-IsMember n _ _ _ e k).0 in
      let settled = process_once_settles n w size some_left q e k a h p in
      (a, h, p, settled, (process_once-IsSound x cfg w s).lossless.at a h settled)

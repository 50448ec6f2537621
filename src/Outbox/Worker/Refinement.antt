-- ===== src/Outbox/Worker/Refinement.antt =====
-- A round of the worker follows the protocol, whatever the database and the broker answer.
use go_identity_service.Base.{◌≡◌, refl, List, [], ◌∷◌, IsMember, first, later}
use go_identity_service.Apperror.{Error, wrapped, Result, ok, err}
use go_identity_service.External.{External}
use go_identity_service.World.{World, ◌>>=◌, pure, map_err, attempt}
use go_identity_service.World.Rules.{bind_cases, map_err-ok, pair_path}
use go_identity_service.World.Keeps.{Keeps-fail}
use go_identity_service.Outbox.Model.{Event}
use go_identity_service.Outbox.Repository.{fetch_batch}
use go_identity_service.Outbox.Publisher.{publish}
use go_identity_service.Outbox.Protocol.{State, Steps, start}
use go_identity_service.Outbox.Protocol.Rows.{Steps-trans}
use go_identity_service.Outbox.Protocol.Identity.{HasDistinctIds, Tracks, Steps-Tracks}
use go_identity_service.Outbox.Worker.{
  WorkerConfig, publish_failed, after_publish, process_event, process_all, process_once, reason_of,
}
use go_identity_service.Outbox.Worker.Goes.{view, Goes, Goes-map_err, Goes-then}
use go_identity_service.Outbox.Worker.Fetching.{fetch_batch-Goes, fetch_batch-Tracks}
use go_identity_service.Outbox.Worker.Calls.{
  mark_failed-Goes, mark_processed-Goes, publish-Goes, publish-IsDelivered,
}

module _ (x : External) (cfg : WorkerConfig) where
  publish_failed-Goes :
      (event : Event) (e : Error) (s : State)
      → Goes cfg.max_attempts s (publish_failed x cfg event e)
  unfolding publish_failed
  publish_failed-Goes event e s =
      Goes-then _ _ (Goes-map_err _ _ (mark_failed-Goes x cfg event.id (reason_of x cfg e) s))
        (λ u. Keeps-fail e)

  process_event-Steps :
      (event : Event) (w : World)
      → Tracks event w.tables.outbox_events
      → Steps cfg.max_attempts (view w) (view (process_event x cfg event w).1)
  unfolding process_event ◌>>=◌ attempt
  process_event-Steps event w t =
      Steps-trans ((publish-Goes x cfg event (view w) t).at w refl)
        (go (publish x cfg.topic event w).0 refl)
    where
      v : World
      v = (publish x cfg.topic event w).1

      go :
          (r : Result (Unit {0}))
          → (publish x cfg.topic event w).0 ≡ r
          → Steps cfg.max_attempts (view v) (view (after_publish x cfg event r v).1)
      go (err e) p = (publish_failed-Goes event e (view v)).at v refl
      go (ok u) p =
          (Goes-map_err (wrapped "mark processed") _ (
              mark_processed-Goes x cfg event (view v)
                (Steps-Tracks event ((publish-Goes x cfg event (view w) t).at w refl) t)
                (publish-IsDelivered x cfg event w (pair_path (publish x cfg.topic event w) p)))).at
            v refl

  process_all-Steps :
      (events : List Event) (w : World)
      → ((e : Event) → IsMember e events → Tracks e w.tables.outbox_events)
      → Steps cfg.max_attempts (view w) (view (process_all x cfg events w).1)
  unfolding process_all ◌>>=◌ attempt pure
  process_all-Steps [] w t = start
  process_all-Steps (e ∷ es) w t =
      let one = process_event-Steps e w (t e (first refl)) in
      Steps-trans one (
        process_all-Steps es (process_event x cfg e w).1
          (λ a k. Steps-Tracks a one (t a (later k))))

  -- A round of the worker takes the rows and the topic by steps of the protocol, whatever the database
  -- and the broker answer, when no two rows have one id.
  pub process_once-Steps :
      (w : World)
      → HasDistinctIds w.tables.outbox_events
      → Steps cfg.max_attempts (view w) (view (process_once x cfg w).1)
  unfolding process_once
  process_once-Steps w d =
      bind_cases (λ out. Steps cfg.max_attempts (view w) (view out.1)) fetch (process_all x cfg) w
        (λ events p. Steps-trans fetched (
          process_all-Steps events (fetch w).1 (
            fetch_batch-Tracks cfg.max_attempts cfg.batch_size cfg.lock_timeout w d
              (map_err-ok _ _ w (pair_path (fetch w) p)))))
        (λ e p. fetched)
    where
      fetch : World → Result (List Event) × World
      fetch = map_err (wrapped "fetch outbox batch") (fetch_batch cfg.batch_size cfg.lock_timeout)

      fetched : Steps cfg.max_attempts (view w) (view (fetch w).1)
      fetched =
          (Goes-map_err _ _
              (fetch_batch-Goes cfg.max_attempts cfg.batch_size cfg.lock_timeout (view w) d)).at
            w refl

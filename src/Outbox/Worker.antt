-- ===== src/Outbox/Worker.antt =====
-- internal/outbox/worker.go: one round of the worker, and the rounds that `Run` makes on its ticker.
pub mod Goes
pub mod Fetching
pub mod Calls
pub mod Refinement
pub mod Soundness
pub mod Progress
pub mod Delivery
use go_identity_service.Base.{
  ℕ, ℤ, Text, len, cut_bytes, ltb, Option, some, List, [], ◌∷◌, if◌then◌else◌,
}
use go_identity_service.Apperror.{Error, wrapped, Result, ok, err}
use go_identity_service.External.{External}
use go_identity_service.World.{World, M, ◌>>=◌, ◌>>◌, pure, fail, map_err, attempt}
use go_identity_service.Outbox.Model.{Event}
use go_identity_service.Outbox.Repository
use go_identity_service.Outbox.Publisher

pub record WorkerConfig : Type 0 where
  pub topic : Text
  pub batch_size : ℤ
  pub max_attempts : ℕ
  pub lock_timeout : ℕ

module _ (x : External) (cfg : WorkerConfig) where
  -- reason[:1000]
  unfoldable pub reason_of : Error → Option Text
  reason_of e =
      let reason = x.error_text e in
      if ltb 1000 (len reason) then cut_bytes 1000 reason else some reason

  publish_failed : Event → Error → M (Unit {0})
  unfolding reason_of
  publish_failed event e = do
    map_err (λ mark. wrapped "publish failed; mark failed" e)
        (Repository.mark_failed event.id (reason_of e) cfg.max_attempts)
    fail e

  after_publish : Event → Result (Unit {0}) → M (Unit {0})
  unfolding publish_failed
  after_publish event (err e) = publish_failed event e
  after_publish event (ok _) =
      map_err (wrapped "mark processed") (Repository.mark_processed event.id)

  unfoldable pub process_event : Event → M (Unit {0})
  unfolding after_publish
  process_event event = do
    published ← attempt (Publisher.publish x cfg.topic event)
    after_publish event published

  -- An event that fails is logged, and the loop goes on.
  unfoldable pub process_all : List Event → M (Unit {0})
  process_all [] = pure tt
  process_all (e ∷ es) = do attempt (process_event e); process_all es

  unfoldable pub process_once : M (Unit {0})
  unfolding process_all
  process_once = do
    events ←
        map_err (wrapped "fetch outbox batch")
          (Repository.fetch_batch cfg.batch_size cfg.lock_timeout)
    process_all events

  -- Worker.Run, with what happens to the world before each round: the start, then a wait for the ticker
  -- each time. A round that fails is logged, and when no round is left the context is done.
  unfoldable pub run : List (World → World) → World → World
  run [] w = w
  run (wait ∷ waits) w = run waits (process_once (wait w)).1

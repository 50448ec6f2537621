-- ===== src/Outbox/Worker/Soundness.antt =====
-- What a round of the worker keeps true of the outbox and the topic.
use go_identity_service.Base.{IsMember, List, [], ◌∷◌, All}
use go_identity_service.External.{External}
use go_identity_service.World.{World}
use go_identity_service.Outbox.Model.{Event}
use go_identity_service.Outbox.Protocol.Identity.{HasDistinctIds, Steps-HasDistinctIds}
use go_identity_service.Outbox.Protocol.Invariants.{
  IsLossless, IsGenuine, HasTries, IsFinal, Steps-IsLossless, Steps-IsGenuine, Steps-HasTries,
  Steps-final,
}
use go_identity_service.Outbox.Worker.{WorkerConfig, process_once, run}
use go_identity_service.Outbox.Worker.Goes.{view}
use go_identity_service.Outbox.Worker.Refinement.{process_once-Steps}

-- No two rows have one id, each PROCESSED row has its record in the topic, each record of the topic is
-- that of a row, and each row that waits has been tried less often than the limit.
pub record IsSound (cfg : WorkerConfig) (w : World) : Type 0 where
  pub distinct : HasDistinctIds w.tables.outbox_events
  pub lossless : IsLossless (view w)
  pub genuine : IsGenuine (view w)
  pub tries : HasTries cfg.max_attempts (view w)

module _ (x : External) (cfg : WorkerConfig) where
  -- A round of the worker keeps the outbox sound, whatever the database and the broker answer: the row
  -- ids stay distinct, a PROCESSED row has its record in the topic, the topic holds the records of rows
  -- only, and a NEW row has tries left.
  pub process_once-IsSound : (w : World) → IsSound cfg w → IsSound cfg (process_once x cfg w).1
  process_once-IsSound w s =
      let steps = process_once-Steps x cfg w s.distinct in
      record {
        distinct = Steps-HasDistinctIds steps s.distinct;
        lossless = Steps-IsLossless steps s.lossless;
        genuine = Steps-IsGenuine steps s.genuine;
        tries = Steps-HasTries steps s.tries;
      }

  -- A row that is PROCESSED or FAILED is still there, unchanged, after a round of the worker, whatever
  -- the database and the broker answer, when no two rows have one id.
  pub process_once_final :
      (w : World) (e : Event)
      → HasDistinctIds w.tables.outbox_events
      → IsFinal e
      → IsMember e w.tables.outbox_events
      → IsMember e (process_once x cfg w).1.tables.outbox_events
  process_once_final w e d f h = Steps-final e (process_once-Steps x cfg w d) f h

  -- Where all that happens between the rounds keeps the outbox sound, every sequence of rounds does.
  run-IsSound :
      (waits : List (World → World))
      → All (λ wait. (w : World) → IsSound cfg w → IsSound cfg (wait w)) waits
      → (w : World) → IsSound cfg w
      → IsSound cfg (run x cfg waits w)
  unfolding run
  run-IsSound [] h w s = s
  run-IsSound (wait ∷ waits) (h, hs) w s = run-IsSound waits hs _ (process_once-IsSound _ (h w s))

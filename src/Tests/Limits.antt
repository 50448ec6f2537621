-- ===== src/Tests/Limits.antt =====
-- The rate limiters on a few requests.
use go_identity_service.Base.{
  ◌<◌, ◌+◌, ◌*◌, codes, text_eq, ◌≡◌, refl, none, some, List, [], ◌∷◌, All, arith,
}
use go_identity_service.Ratelimit.InMemory.{Entry, Limiter, set_entry}
use go_identity_service.Ratelimit.Window.{Request, granted, requested, smaller, granted_in_window}
use go_identity_service.Ratelimit.Agreement.{
  in_millis, memory_verdicts, redis_verdicts, memory-redis_verdicts,
}
use go_identity_service.Base.{pos, suc, ◌/◌}

abbrev requests : List Request
requests = (1, codes "a") ∷ (2, codes "b") ∷ (3, codes "a") ∷ (4, codes "a") ∷ []

abbrev opened : Entry
opened = record { count = 1; reset_at = 10 }

abbrev limiter : Limiter
limiter = set_entry (codes "a") opened (λ k. none)

limiter_has_key : limiter (codes "a") ≡ some opened
unfolding codes text_eq
limiter_has_key = refl

requests_in_window : All (λ r. r.0 < 10) requests
requests_in_window = (omega arith, (omega arith, (omega arith, (omega arith, tt))))

granted_in_window_example :
    1 + granted (pos 2) 10 (codes "a") limiter requests
    ≡ smaller 2 (1 + requested (codes "a") requests)
granted_in_window_example =
    granted_in_window (codes "a") 2 10 (omega arith) limiter opened requests limiter_has_key
      (omega arith) requests_in_window

memory-redis_verdicts_example :
    memory_verdicts 2 (suc ((5 * 1000000) / 1000000)) (λ k. none) (in_millis requests)
    ≡ redis_verdicts (codes "p") 2 (5 * 1000000) (λ k. none) requests
memory-redis_verdicts_example =
    memory-redis_verdicts (codes "p") 2 (5 * 1000000) (omega arith) (omega arith) requests

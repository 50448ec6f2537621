-- ===== src/App/Health.antt =====
-- internal/app/health.go. A dependency is what Ping answers within its time limit.
use go_identity_service.Base.{
  ℕ, ◌≡◌, refl, ◌↔◌, ◌⊎◌, inl, inr, arith, String, Bool, true, false, ◌&&◌, List, [], ◌∷◌,
  if◌then◌else◌, Option, none, some,
}
use go_identity_service.Apperror.{Error}

-- readinessResponse with its status code; the map of checks in the order of the source.
pub record Readiness : Type 0 where
  pub code : ℕ
  pub status : String
  pub checks : List (String × String)

pub record HealthHandlers : Type 0 where
  pub db : Option Error
  pub redis : Option Error
  pub kafka : Option Error
  pub shutting_down : Bool

abbrev all_checks : String → String → String → List (String × String)
all_checks database redis kafka = ("database", database) ∷ ("redis", redis) ∷ ("kafka", kafka) ∷ []

-- check: the entry of the map, and whether err is nil
unfoldable pub check : Option Error → String × Bool
check none = ("ok", true)
check (some e) = ("unavailable", false)

unfoldable pub ready : HealthHandlers → Readiness
unfolding check
ready h =
    if h.shutting_down
    then record {
      code = 503;
      status = "shutting_down";
      checks = all_checks "skipped" "skipped" "skipped";
    }
    else (let (database, db_ok) = check h.db in
        let (redis, redis_ok) = check h.redis in
        let (kafka, kafka_ok) = check h.kafka in
        let checks = all_checks database redis kafka in
        if db_ok && (redis_ok && kafka_ok)
        then record { code = 200; status = "ready"; checks = checks }
        else record { code = 503; status = "not_ready"; checks = checks })

abbrev IsReady : HealthHandlers → Type 0
IsReady h = (h.shutting_down ≡ false) × (h.db ≡ none) × (h.redis ≡ none) × (h.kafka ≡ none)

abbrev Verdict : HealthHandlers → Type 0
Verdict h = (((ready h).code ≡ 200) ↔ IsReady h) × (((ready h).code ≡ 200) ⊎ ((ready h).code ≡ 503))

ready_at :
    (s : Bool) (d r k : Option Error)
    → Verdict (record { db = d; redis = r; kafka = k; shutting_down = s })
unfolding ready
ready_at true d r k = ((λ p. absurd (omega (arith, p)), λ q. cc), inr refl)
ready_at false (some e) r k = ((λ p. absurd (omega (arith, p)), λ q. cc), inr refl)
ready_at false none (some e) k = ((λ p. absurd (omega (arith, p)), λ q. cc), inr refl)
ready_at false none none (some e) = ((λ p. absurd (omega (arith, p)), λ q. cc), inr refl)
ready_at false none none none = ((λ p. (refl, refl, refl, refl), λ q. refl), inl refl)

-- Ready answers 200 exactly when the service is not shutting down and each of its three dependencies
-- answers, and it answers 503 otherwise.
pub ready_iff :
    (h : HealthHandlers)
    → (((ready h).code ≡ 200)
        ↔ ((h.shutting_down ≡ false) × (h.db ≡ none) × (h.redis ≡ none) × (h.kafka ≡ none)))
      × (((ready h).code ≡ 200) ⊎ ((ready h).code ≡ 503))
ready_iff h = ready_at h.shutting_down h.db h.redis h.kafka

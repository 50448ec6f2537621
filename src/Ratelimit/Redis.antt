-- ===== src/Ratelimit/Redis.antt =====
-- internal/ratelimit/redis_limiter.go, with the commands INCR and PEXPIRE of its script. The clock of
-- Redis is in whole milliseconds, and a key is gone when that clock is past the time at which it expires.
use go_identity_service.Base.{
  ℕ, suc, ◌+◌, ◌/◌, ◌==◌, ℤ, pos, int_leb, Text, text_eq, codes, ◌++◌, Bool, true, false, leb, ltb,
  Option, none, some, if◌then◌else◌,
}
use go_identity_service.Apperror.{external, message, wrapped, Result, ok, err}
use go_identity_service.World.{Answer, answered, refused, lost}

pub record Counter : Type 0 where
  pub count : ℕ
  pub expires_at : Option ℕ

abbrev pub Keys : Type 0
Keys = Text → Option Counter

abbrev pub has_expired : ℕ → Option ℕ → Bool
has_expired now none = false
has_expired now (some at) = ltb at now

-- INCR
unfoldable pub incr : ℕ → Option Counter → Counter
incr now none = record { count = 1; expires_at = none }
incr now (some c) =
    if has_expired now c.expires_at
    then record { count = 1; expires_at = none }
    else record c { count = suc c.count }

-- The script: INCR, and PEXPIRE when the count is 1.
unfoldable pub incr_and_expire : ℕ → ℕ → Option Counter → Counter
unfolding incr
incr_and_expire now ttl_millis c =
    let current = incr now c in
    if current.count == 1 then record current { expires_at = some (now + ttl_millis) } else current

abbrev pub set_counter : Text → Counter → Keys → Keys
set_counter key c s k = if text_eq key k then some c else s k

abbrev pub reply : Answer → ℤ → Text → Counter → Keys → Result Bool × Keys
reply answered limit key c s = (ok (int_leb (pos c.count) limit), set_counter key c s)
reply refused limit key c s = (err (wrapped "run redis rate limit script" external), s)
reply lost limit key c s =
    (err (wrapped "run redis rate limit script" external), set_counter key c s)

abbrev pub redis_key : Text → Text → Text
redis_key prefix key = prefix ++ codes ":" ++ key

-- RedisLimiter.Allow at `now` in nanoseconds, when Redis gives the answer.
unfoldable pub allow : Text → Answer → Keys → ℕ → Text → ℤ → ℕ → Result Bool × Keys
unfolding incr_and_expire
allow prefix answer s now key limit window =
    if int_leb limit (pos 0)
    then (ok true, s)
    else if leb (window / 1000000) 0
    then (err (message "rate limit window must be at least 1 millisecond"), s)
    else reply answer limit (redis_key prefix key)
        (incr_and_expire (now / 1000000) (window / 1000000) (s (redis_key prefix key))) s

-- ===== src/Ratelimit/InMemory.antt =====
-- internal/ratelimit/limiter_in_memory.go. The clock is an argument.
use go_identity_service.Base.{
  ℕ, suc, ◌+◌, ℤ, pos, int_leb, Text, text_eq, Bool, true, false, not, ltb, Option, none, some,
  if◌then◌else◌,
}

pub record Entry : Type 0 where
  pub count : ℕ
  pub reset_at : ℕ

-- The map of the entries by key.
abbrev pub Limiter : Type 0
Limiter = Text → Option Entry

abbrev pub set_entry : Text → Entry → Limiter → Limiter
set_entry key e l k = if text_eq key k then some e else l k

abbrev pub new_entry : ℕ → ℕ → Entry
new_entry now window = record { count = 1; reset_at = now + window }

-- The entry behind a request that is allowed, and `none` for one that is not.
unfoldable pub admit : ℕ → ℤ → ℕ → Option Entry → Option Entry
admit now limit window none = some (new_entry now window)
admit now limit window (some current) =
    if not (ltb now current.reset_at)
    then some (new_entry now window)
    else if int_leb limit (pos current.count)
    then none
    else some (record current { count = suc current.count })

abbrev pub store : Text → Limiter → Option Entry → Bool × Limiter
store key l none = (false, l)
store key l (some e) = (true, set_entry key e l)

-- Limiter.Allow
unfoldable pub allow : Limiter → ℕ → Text → ℤ → ℕ → Bool × Limiter
unfolding admit
allow l now key limit window =
    if int_leb limit (pos 0) then (true, l) else store key l (admit now limit window (l key))

-- ===== src/World.antt =====
-- What the service's code acts on: the tables of migrations/, the Redis keys, the clock and the
-- third parties' answers, and the Kafka topic. An operation is an action of the monad `M`.
--
-- A call of a third party takes the next of `answers`: it is carried out, or it fails without an
-- effect, or it takes effect and its reply is lost (a timeout, a broken connection). When no answer
-- is left, calls succeed. A reading of the clock takes the next of `delays`.
pub mod Rules
pub mod Keeps
pub mod Answers
pub mod Transaction
pub mod Preserves
pub mod Triples
use go_identity_service.Base.{ℕ, suc, ◌+◌, Text, Option, none, some, List, [], ◌∷◌, String}
use go_identity_service.Apperror.{Error, external, wrapped, Result, ok, err}
use go_identity_service.User.Model.{User, Profile}
use go_identity_service.Auth.Model.{RefreshToken}
use go_identity_service.Outbox
use go_identity_service.Kafka
use go_identity_service.Kafka.Model.{UserAuditEvent, ProcessedEvent}

pub record Tables : Type 0 where
  pub users : List User
  pub user_profiles : List Profile
  pub refresh_tokens : List RefreshToken
  pub outbox_events : List Outbox.Model.Event
  pub processed_kafka_events : List ProcessedEvent
  pub user_audit_events : List UserAuditEvent

-- The next values of the bigserial columns. A rollback does not give a value back.
pub record Sequences : Type 0 where
  pub user_id : ℕ
  pub profile_id : ℕ
  pub token_id : ℕ
  pub event_id : ℕ
  pub audit_id : ℕ

-- A Redis key with its value and the time at which it expires.
pub record CacheEntry : Type 0 where
  pub key : Text
  pub value : Text
  pub expires_at : ℕ

pub data Answer : Type 0 where
  answered refused lost : Answer

pub record World : Type 0 where
  pub tables : Tables
  pub sequences : Sequences
  pub cache : List CacheEntry
  -- The records that the broker holds, and for each partition the offset committed for the group.
  pub topic : List Kafka.Model.Record
  pub committed : ℕ → ℕ
  pub clock : ℕ
  -- The start of the open transaction, which is what `now()` returns in it.
  pub tx_started : Option ℕ
  pub delays : List ℕ
  pub entropy : ℕ
  -- How many queries for a page there were: each comes upon the rows in an order of its own.
  pub scans : ℕ
  pub answers : List Answer

abbrev pub M : Type 0 → Type 0
M A = World → Result A × World

abbrev pub continue : {A B : Type 0} → Result A → (A → M B) → M B
continue (ok a) f w = f a w
continue (err e) f w = (err e, w)

abbrev pub recover : {A : Type 0} → Result A → (Error → M A) → M A
recover (ok a) h w = (ok a, w)
recover (err e) h w = h e w

infixl 10 ◌>>=◌ ◌>>◌
unfoldable pub ◌>>=◌ : {A B : Type 0} → M A → (A → M B) → M B
◌>>=◌ m f w = let (r, w') = m w in continue r f w'

abbrev pub ◌>>◌ : {A B : Type 0} → M A → M B → M B
m >> n = m >>= λ _. n

unfoldable pub pure : {A : Type 0} → A → M A
pure a w = (ok a, w)

unfoldable pub fail : {A : Type 0} → Error → M A
fail e w = (err e, w)

-- `if err != nil { return ..., h(err) }`, and `if err != nil` with a body that goes on.
unfoldable pub on_err : {A : Type 0} → M A → (Error → M A) → M A
on_err m h w = let (r, w') = m w in recover r h w'

abbrev pub map_err : {A : Type 0} → (Error → Error) → M A → M A
map_err h m = on_err m (λ e. fail (h e))

-- The result of an action as a value, errors included.
unfoldable pub attempt : {A : Type 0} → M A → M (Result A)
attempt m w = let (r, w') = m w in (ok r, w')

-- A pure function of a third party that may fail.
unfoldable pub of_option : {A : Type 0} → Option A → M A
of_option none w = (err external, w)
of_option (some a) w = (ok a, w)

abbrev pub next_answer : List Answer → World → Answer × World
next_answer [] w = (answered, w)
next_answer (a ∷ rest) w = (a, record w { answers = rest })

unfoldable pub take_answer : World → Answer × World
take_answer w = next_answer w.answers w

abbrev pub carry_out : {A : Type 0} → Answer → M A → M A
carry_out answered op w = op w
carry_out refused op w = (err external, w)
carry_out lost op w = (err external, (op w).1)

unfoldable pub call : {A : Type 0} → M A → M A
unfolding take_answer
call op w = let (a, w') = take_answer w in carry_out a op w'

-- time.Now().UTC()
abbrev pub read_delays : List ℕ → M ℕ
read_delays [] w = (ok w.clock, w)
read_delays (d ∷ rest) w = (ok (w.clock + d), record w { clock = w.clock + d; delays = rest })

unfoldable pub time_now : M ℕ
time_now w = read_delays w.delays w

unfoldable pub next_entropy : M ℕ
next_entropy w = (ok w.entropy, record w { entropy = suc w.entropy })

-- now() of SQL
abbrev pub sql_now : World → ℕ
sql_now w = elim w.tx_started [ none ↦ w.clock | some t ↦ t ]

-- A transaction: its snapshot is what a rollback brings back.
abbrev pub begin_with : Answer → M Tables
begin_with answered w = (ok w.tables, record w { tx_started = some w.clock })
begin_with _ w = (err external, w)

unfoldable pub begin : M Tables
unfolding take_answer
begin w = let (a, w') = take_answer w in begin_with a w'

-- The tables are those of `snapshot` again, whatever the server answers.
abbrev pub rollback_with : Tables → Answer → M (Unit {0})
rollback_with snapshot answered w = (ok tt, record w { tables = snapshot; tx_started = none })
rollback_with snapshot _ w = (err external, record w { tables = snapshot; tx_started = none })

unfoldable pub rollback : Tables → M (Unit {0})
unfolding take_answer
rollback snapshot w = let (a, w') = take_answer w in rollback_with snapshot a w'

abbrev pub commit_with : Tables → Answer → M (Unit {0})
commit_with snapshot answered w = (ok tt, record w { tx_started = none })
commit_with snapshot refused w = (err external, record w { tables = snapshot; tx_started = none })
commit_with snapshot lost w = (err external, record w { tx_started = none })

unfoldable pub commit : Tables → M (Unit {0})
unfolding take_answer
commit snapshot w = let (a, w') = take_answer w in commit_with snapshot a w'

-- ===== src/Pipeline/Failure.antt =====
-- settle_send_failure and is_permanent_error of src/kafka_pipeline.cpp.
use mod_event_kafka.Common.{ℕ, ◌+◌, String, Bool, not, ◌||◌, Option, none, some, if◌then◌else◌, ℤ}
use mod_event_kafka.Outbox.Schema.{in_flight, OutboxRecord, state_eq}
use mod_event_kafka.Outbox.Engine.{Outcome, done, thrown, Sql, ◌>>=◌, return}
use mod_event_kafka.Outbox.Transitions.{mark_retry, mark_dead}
use mod_event_kafka.Outbox.Queries.{get}
use mod_event_kafka.Pipeline.Backoff.{int_lt, attempt_backoff_ms}

-- What a `bool f(…, std::string& err)` of the outbox reports.
pub data Report {ℓ} (A : Type ℓ) : Type ℓ where
  ok : A → Report A
  failed : String → Report A

-- `catch (const std::exception& e) { err = e.what(); return false; }`
abbrev pub caught {ℓ} : {A : Type ℓ} → Outcome A → Outcome (Report A)
caught (done a fs d) = done (ok a) fs d
caught (thrown e fs d) = done (failed e) fs d

unfoldable pub reported {ℓ} : {A : Type ℓ} → Sql A → Sql (Report A)
reported m fs d = caught (m fs d)

-- `SendFailureResult`, with the `err` of a failure.
pub data SendFailureResult : Type 0 where
  to_retry to_dead : SendFailureResult
  not_settled : String → SendFailureResult

-- The clock readings of one settlement, in the order in which they are taken: the due time and the
-- jitter of a retry, and the time of the UPDATE.
pub record Clock : Type 0 where
  pub due : ℕ
  pub jitter : ℕ
  pub update : ℕ

abbrev pub settled_as {ℓ} : {A : Type ℓ} → SendFailureResult → Report A → SendFailureResult
settled_as r (ok a) = r
settled_as r (failed e) = not_settled e

-- The limits on tries.
abbrev pub is_final : ℤ → Bool → OutboxRecord → Bool
is_final max_attempts permanent cur = permanent || not (int_lt cur.attempts max_attempts)

unfoldable pub give_up : String → String → Clock → Sql SendFailureResult
unfolding ◌>>=◌ return reported
give_up id error clock = do
  r ← reported (mark_dead clock.update id error)
  return (settled_as to_dead r)

unfoldable pub try_again : OutboxRecord → String → String → Clock → Sql SendFailureResult
unfolding ◌>>=◌ return reported
try_again cur id error clock = do
  let next = clock.due + attempt_backoff_ms cur.attempts clock.jitter
  r ← reported (mark_retry clock.update id next error)
  return (settled_as to_retry r)

unfoldable pub settle_current :
    ℤ → String → String → Bool → Clock → Option OutboxRecord → Sql SendFailureResult
unfolding return give_up try_again
settle_current max_attempts id error permanent clock none =
    return (not_settled "send failure for non-in-flight event")
settle_current max_attempts id error permanent clock (some cur) =
    if not (state_eq cur.state in_flight)
    then return (not_settled "send failure for non-in-flight event")
    else if is_final max_attempts permanent cur
    then give_up id error clock
    else try_again cur id error clock

unfoldable pub settle_send_failure : ℤ → String → String → Bool → Clock → Sql SendFailureResult
unfolding ◌>>=◌ settle_current
settle_send_failure max_attempts id error permanent clock = do
  cur ← get id
  settle_current max_attempts id error permanent clock cur

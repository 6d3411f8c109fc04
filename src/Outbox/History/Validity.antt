-- ===== src/Outbox/History/Validity.antt =====
-- Every history keeps the outbox well formed.
use mod_event_kafka.Common.{ℕ, [], ◌∷◌, arith, All}
use mod_event_kafka.Outbox.Schema.{Store}
use mod_event_kafka.Outbox.Engine.{Faults}
use mod_event_kafka.Outbox.History.{
  Call, inserts, claims, acks, retries, kills, revives, requeues, expires, after, History, run,
  empty_store,
}
use mod_event_kafka.Outbox.Invariant.{IsValid}
use mod_event_kafka.Outbox.Invariant.Claims.{
  mark_in_flight-IsValid, mark_retry-IsValid, mark_dead-IsValid, retry_dead-IsValid,
  requeue_in_flight-IsValid, expire_ttl-IsValid,
}
use mod_event_kafka.Outbox.Invariant.Acks.{mark_acked-IsValid}
use mod_event_kafka.Outbox.Invariant.Admissions.{insert_pending-IsValid, FitsInt64}

-- The sequence that an admission asks for is an int64_t.
abbrev pub InRange : Call → Type 0
InRange (inserts rec wall) = FitsInt64 rec
InRange _ = Unit

pub after-IsValid :
    (c : Call) (fs : Faults) (d : Store) → InRange c → IsValid d → IsValid (after c fs d)
unfolding after
after-IsValid (inserts rec wall) fs d r v = insert_pending-IsValid rec wall fs d r v
after-IsValid (claims now id) fs d r v = mark_in_flight-IsValid now id fs d v
after-IsValid (acks now id) fs d r v = mark_acked-IsValid now id fs d v
after-IsValid (retries now id next error) fs d r v = mark_retry-IsValid now id next error fs d v
after-IsValid (kills now id error) fs d r v = mark_dead-IsValid now id error fs d v
after-IsValid (revives due now id) fs d r v = retry_dead-IsValid due now id fs d v
after-IsValid (requeues due now) fs d r v = requeue_in_flight-IsValid due now fs d v
after-IsValid (expires now ttl) fs d r v = expire_ttl-IsValid now ttl fs d v

abbrev pub AllInRange : History → Type 0
AllInRange h = All (λ c. InRange c.0) h

-- After any history of calls with int64_t sequences, whatever the engine refuses during it, a
-- well-formed outbox is well formed.
pub run-IsValid : (h : History) (d : Store) → AllInRange h → IsValid d → IsValid (run h d)
unfolding run
run-IsValid [] d r v = v
run-IsValid (c ∷ h) d r v = run-IsValid h (after c.0 c.1 d) r.1 (after-IsValid c.0 c.1 d r.0 v)

pub empty-IsValid : (rows bytes : ℕ) → IsValid (empty_store rows bytes)
empty-IsValid rows bytes = record {
  rows_ok = tt;
  ids = tt;
  slots = tt;
  streams_ok = tt;
  calls = tt;
  turns = omega arith;
}

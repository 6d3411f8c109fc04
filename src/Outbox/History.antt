-- ===== src/Outbox/History.antt =====
-- Histories of the outbox: the calls of include/kafka_outbox.hpp that change it, in the order in
-- which its mutex lets them in, each with the faults that the engine shows during it.
pub mod Effects
pub mod Validity
pub mod Order
pub mod Streams
pub mod Contents
pub mod Fixed
pub mod Retired
use mod_event_kafka.Common.{
  ℕ, zero, suc, ◌+◌, ◌-◌, ◌*◌, ◌/◌, ◌%◌, ◌^◌, ◌≤◌, ◌<◌, min, max, String, len, ◌≡◌, refl, sym, ap,
  ◌∙◌, subst, ◌≢◌, ◌↔◌, ◌⊎◌, inl, inr, Bool, true, false, not, ◌&&◌, ◌||◌, Option, none, some, List,
  [], ◌∷◌, ◌++◌, map, arith, ltb, leb, ◌==◌, if◌then◌else◌, ltb→lt, leb→le, ==_iff, ==_self,
  Bool-cases, Option-cases, &&_parts, if_cases, length, take, Memᴰ, here, there, All, Pairwise,
  length-append, All-append, All-mono, All-Mem, Pairwise-snoc, select_where, first_where,
  update_where, delete_where, count_where, any_where, sum_of, length-update_where,
  length-delete_where-le, sum_of-delete_where-le, update_where_none, first_where_sound,
  All-update_where, All-delete_where, text_eq, is_empty, text_eq_iff, text_eq_self, text_eq_ne,
  text_eq_comm, is_empty_iff, ℤ, pos, negsuc, pos_part, to_int32, to_int32_small,
}
use mod_event_kafka.Outbox.Schema.{
  OutboxState, pending, in_flight, dead, OutboxRecord, Row, OrderMode, admission, source,
  CallStream, RetiredCall, Store, int64_max, state_eq, mode_eq, is_ungrouped, is_call, find_stream,
  at_cursor, is_head,
}
use mod_event_kafka.Outbox.Engine.{
  Faults, Outcome, done, thrown, Sql, ◌>>=◌, ◌>>◌, return, raise, skip, Reply, reply, refused,
  deliver, attempt, statement, select, change, change_counted, control, bracket, transaction,
  roll_back, continue, store_of,
}
use mod_event_kafka.Outbox.Admission.{insert_pending}
use mod_event_kafka.Outbox.Transitions.{
  mark_in_flight, mark_acked, mark_retry, mark_dead, retry_dead, requeue_in_flight, expire_ttl,
  is_in_flight, integer,
}

-- A call with its arguments, the readings of the wall clock included.
pub data Call : Type 0 where
  inserts : OutboxRecord → ℕ → Call
  claims : ℕ → String → Call
  acks : ℕ → String → Call
  retries : ℕ → String → ℕ → String → Call
  kills : ℕ → String → String → Call
  revives : ℕ → ℕ → String → Call
  requeues : ℕ → ℕ → Call
  expires : ℕ → ℤ → Call

-- The store that a call leaves behind.
unfoldable pub after : Call → Faults → Store → Store
after (inserts rec wall) fs d = store_of (insert_pending rec wall fs d)
after (claims now id) fs d = store_of (mark_in_flight now id fs d)
after (acks now id) fs d = store_of (mark_acked now id fs d)
after (retries now id next error) fs d = store_of (mark_retry now id next error fs d)
after (kills now id error) fs d = store_of (mark_dead now id error fs d)
after (revives due now id) fs d = store_of (retry_dead due now id fs d)
after (requeues due now) fs d = store_of (requeue_in_flight due now fs d)
after (expires now ttl) fs d = store_of (expire_ttl now ttl fs d)

abbrev pub History : Type 0
History = List (Call × Faults)

unfoldable pub run : History → Store → Store
run [] d = d
run (c ∷ h) d = run h (after c.0 c.1 d)

-- A new outbox, just opened.
abbrev pub empty_store : ℕ → ℕ → Store
empty_store rows bytes = record {
  max_rows = rows;
  max_bytes = bytes;
  is_open = true;
  rows = [];
  streams = [];
  retired = [];
  turn = 0;
}

abbrev pub when_done {ℓ κ} : {A : Type ℓ} {B : Type κ} → Outcome A → Option B → Option B
when_done (done a fs d) o = o
when_done (thrown e fs d) o = none

-- The row that a call acknowledges: the in-flight row of its event, if the call returns.
unfoldable pub acknowledged : Call → Faults → Store → Option Row
acknowledged (acks now id) fs d =
    when_done (mark_acked now id fs d) (first_where (is_in_flight id) d.rows)
acknowledged _ fs d = none

-- The record that a call accepts: the one that it inserts, if it returns.
unfoldable pub accepted : Call → Faults → Store → Option OutboxRecord
accepted (inserts rec wall) fs d = when_done (insert_pending rec wall fs d) (some rec)
accepted _ fs d = none

abbrev pub cons_some {ℓ} : {A : Type ℓ} → Option A → List A → List A
cons_some none xs = xs
cons_some (some x) xs = x ∷ xs

-- All rows that a history acknowledges, and all records that it accepts, in order.
unfoldable pub acked_rows : History → Store → List Row
acked_rows [] d = []
acked_rows (c ∷ h) d = cons_some (acknowledged c.0 c.1 d) (acked_rows h (after c.0 c.1 d))

unfoldable pub accepted_records : History → Store → List OutboxRecord
accepted_records [] d = []
accepted_records (c ∷ h) d = cons_some (accepted c.0 c.1 d) (accepted_records h (after c.0 c.1 d))

abbrev pub in_call_of : String → String → Row → Bool
in_call_of t u r = text_eq r.topic t && text_eq r.call_uuid u

abbrev pub record_of : String → String → OutboxRecord → Bool
record_of t u r = text_eq r.topic t && text_eq r.call_uuid u
